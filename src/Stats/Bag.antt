-- ===== src/Stats/Bag.antt =====
-- bin/src/stats.rs: the reports of the generators arrive in any order. The abstract view of them is a
-- bag, in which they have none, and the counts of the totals are a function of it.
use mathlib.Core.List.{Perm, Permᴰ}
use mathlib.Core.Logic.{∥∥₁_elim}
use mathlib.Core.Quot
use mathlib.Core.Quot.{Quot}
use native.Mathlib.Nat.{ℕ_set}
use nailgun.Prelude.{
  ℕ, ◌*◌, ◌%◌, ◌<◌, ◌≡◌, refl, sym, ◌∙◌, inl, inr, ap, List, arith, length, ok, u32_mod, u64_mod,
  duration_limit,
}
use nailgun.Stats.Interval.{StatsInterval}
use nailgun.Stats.Totals.{Float32}
use nailgun.Stats.Runner.{StatsRunner, run, runner}
use nailgun.Stats.Conservation.{Counter, reported, totalled, sum_reported}
use nailgun.Stats.Totality.{Lasting, run_conserves}

-- Neither the sum of a count nor the number of reports depends on the order.
pub sum_reported-Permᴰ :
    (c : Counter) {is js : List StatsInterval} → Permᴰ is js → sum_reported c is ≡ sum_reported c js
sum_reported-Permᴰ c Permᴰ.nil = refl
sum_reported-Permᴰ c (Permᴰ.cons same p) =
    omega (arith, ap (reported c) same, sum_reported-Permᴰ c p)
sum_reported-Permᴰ c (Permᴰ.swap one other) =
    omega (arith, ap (reported c) one, ap (reported c) other)
sum_reported-Permᴰ c (Permᴰ.trans p p') = sum_reported-Permᴰ c p ∙ sum_reported-Permᴰ c p'

length-Permᴰ : {is js : List StatsInterval} → Permᴰ is js → length is ≡ length js
length-Permᴰ Permᴰ.nil = refl
length-Permᴰ (Permᴰ.cons same p) = omega (arith, length-Permᴰ p)
length-Permᴰ (Permᴰ.swap one other) = refl
length-Permᴰ (Permᴰ.trans p p') = length-Permᴰ p ∙ length-Permᴰ p'

-- Reports without an order.
abbrev pub Bag : Type 0
Bag = Quot (Perm {A = StatsInterval})

abbrev pub bag : List StatsInterval → Bag
bag is = Quot.mk is

unfoldable pub in_all : Counter → Bag → ℕ
in_all c =
    Quot.lift ℕ_set (sum_reported c) (λ is js p. ∥∥₁_elim p (ℕ_set _ _) (sum_reported-Permᴰ c))

unfoldable size : Bag → ℕ
size = Quot.lift ℕ_set length (λ is js p. ∥∥₁_elim p (ℕ_set _ _) length-Permᴰ)

length-same : (is js : List StatsInterval) → bag is ≡ bag js → length js ≡ length is
unfolding size
length-same is js same = sym (ap size same)

module _ (F : Float32) (E len : ℕ) where
  -- Where no report lasts longer than `E`, `E` times the square of the number of reports fits a
  -- duration, and every round is complete: the same reports in two orders of their arrival make two
  -- runs that return, and every count of the totals of both is the sum over the bag of the reports,
  -- modulo 2 ^ 64.
  pub run-in_all :
      (is js : List StatsInterval)
      → 0 < len
      → len < u32_mod
      → Lasting E is
      → Lasting E js
      → length is * length is * E < duration_limit
      → length is < u64_mod
      → length is % len ≡ 0
      → bag is ≡ bag js
      → (r r' : StatsRunner F.T) × (run F is (runner F len) ≡ ok r)
        × (run F js (runner F len) ≡ ok r')
        × ((c : Counter)
            → (totalled c r.totals % u64_mod ≡ in_all c (bag is) % u64_mod)
              × (totalled c r'.totals % u64_mod ≡ in_all c (bag is) % u64_mod))
  unfolding in_all
  run-in_all is js pos fits l l' d n whole same =
      let as_many = length-same is js same in
      let (r, e, _, _) = run_conserves F E len Counter.sent is pos fits l d n in
      let (r', e', _, _) =
        run_conserves F E len Counter.sent js pos fits l' (rw as_many d) (rw as_many n) in
      (
        r,
        r',
        e,
        e',
        λ c. (
          counted c is r l d n whole e,
          counted c js r' l' (rw as_many d) (rw as_many n) (rw as_many whole) e'
              ∙ ap (λ b. in_all c b % u64_mod) (sym same),
        ),
      )
    where
      counted :
          (c : Counter) (ks : List StatsInterval) (r : StatsRunner F.T)
          → Lasting E ks
          → length ks * length ks * E < duration_limit
          → length ks < u64_mod
          → length ks % len ≡ 0
          → run F ks (runner F len) ≡ ok r
          → totalled c r.totals % u64_mod ≡ sum_reported c ks % u64_mod
      counted c ks r l d n whole e =
          let (r₁, e₁, held, left) = run_conserves F E len c ks pos fits l d n in
          let same : r₁ ≡ r = cc in
          elim left [
            | inl part ↦ absurd (part whole)
            | inr none_left ↦
                let total : totalled c r₁.totals % u64_mod ≡ sum_reported c ks % u64_mod =
                  omega arith in
                rw same at total
          ]
