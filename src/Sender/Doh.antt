-- ===== src/Sender/Doh.antt =====
-- bin/src/sender.rs, `DohSender`: the client for DoH. `run` takes each message off its channel and
-- spawns a task that waits for the first answer of the stream and passes it on. The stream of the
-- `trust-dns` crate is a parameter: which request is answered next, and with what.
use mathlib.Core.List.Perm
use mathlib.Core.List.{Perm, perm_append_singleton, perm_middle}
use nailgun.Prelude.{
  append_assoc, append-nil, ◌∙◌, true, false, sym, Bool, if◌then◌else◌, Fault, Result, ok, err, ℕ,
  zero, suc, ◌≡◌, refl, Option, none, some, List, [], ◌∷◌, ◌++◌, arith, length, Option-cases, inl,
  inr, ap,
}

-- The messages that wait in the channel, the requests whose answers are awaited, the address, what
-- the reader of the generator is given, and whether that reader is still there.
pub record DohSender (Addr : Type 0) : Type 0 where
  pub rx : List (List ℕ)
  pub awaited : List (List ℕ)
  pub addr : Addr
  pub resp : List (List ℕ × Addr)
  pub is_read : Bool

-- `DohSender::new`: the client with its two empty channels, where the connection and its handshake
-- with the server of that name succeed.
unfoldable pub doh_new :
    {Addr Name : Type 0} → (Addr → Name → Bool) → Addr → Name → Result (DohSender Addr)
doh_new handshakes target name_server =
    if handshakes target name_server
    then ok (record { rx = []; awaited = []; addr = target; resp = []; is_read = true })
    else err Fault.failed

-- What happens next: the generator's sender puts a message into the channel, the loop of `run` takes
-- one, the request at a place is over, with an answer or an error, or the reader of the answers is
-- dropped. A channel that is full only takes time.
pub data DohEvent : Type 0 where
  pushes : List ℕ → DohEvent
  takes : DohEvent
  answers : ℕ → Option (List ℕ) → DohEvent
  reader_gone : DohEvent

-- The list without the element at a place, if there is one.
unfoldable pub remove_at : ℕ → List (List ℕ) → Option (List (List ℕ))
remove_at i [] = none
remove_at zero (m ∷ ms) = some ms
remove_at (suc i) (m ∷ ms) = elim (remove_at i ms) [ none ↦ none | some rest ↦ some (m ∷ rest) ]

-- How many requests are over.
abbrev pub finished : List DohEvent → ℕ
finished [] = 0
finished (answers i answer ∷ es) = suc (finished es)
finished (_ ∷ es) = finished es

-- The messages that the sender has put into the channel.
abbrev pub pushed : List DohEvent → List (List ℕ)
pushed [] = []
pushed (pushes msg ∷ es) = msg ∷ pushed es
pushed (_ ∷ es) = pushed es

-- The answers that come while there is a reader for them.
abbrev pub given : {Addr : Type 0} → Addr → Bool → List DohEvent → List (List ℕ × Addr)
given addr is_read [] = []
given addr is_read (reader_gone ∷ es) = given addr false es
given addr true (answers i (some answer) ∷ es) = (answer, addr) ∷ given addr true es
given addr is_read (_ ∷ es) = given addr is_read es

module _ {Addr : Type 0} where
  abbrev take_from : DohSender Addr → List (List ℕ) → Option (DohSender Addr)
  take_from d [] = none
  take_from d (msg ∷ rest) = some (record d { rx = rest; awaited = d.awaited ++ msg ∷ [] })

  -- An error is dropped, and so is an answer that nobody reads: the send fails, and the task with it.
  abbrev passed : Bool → Addr → List (List ℕ × Addr) → Option (List ℕ) → List (List ℕ × Addr)
  passed true addr resp (some answer) = resp ++ (answer, addr) ∷ []
  passed _ addr resp _ = resp

  -- `none` where the event is not possible.
  unfoldable pub doh_event : DohEvent → DohSender Addr → Option (DohSender Addr)
  unfolding remove_at
  doh_event (pushes msg) d = some (record d { rx = d.rx ++ msg ∷ [] })
  doh_event takes d = take_from d d.rx
  doh_event (answers i answer) d = elim (remove_at i d.awaited) [
    | none ↦ none
    | some rest ↦ some (record d { awaited = rest; resp = passed d.is_read d.addr d.resp answer })
  ]
  doh_event reader_gone d = some (record d { is_read = false })

  unfoldable pub doh_run : List DohEvent → DohSender Addr → Option (DohSender Addr)
  unfolding doh_event
  doh_run [] d = some d
  doh_run (e ∷ es) d = elim (doh_event e d) [ none ↦ none | some d' ↦ doh_run es d' ]

  -- What events do to a client. Some messages were taken off the channel, in the order in which they
  -- were put there; those and the requests that were awaited are, in some order, the requests that are
  -- over and those that are awaited now; and the answers that came while there was a reader were
  -- passed on.
  abbrev pub IsServed : List DohEvent → DohSender Addr → DohSender Addr → Type 0
  IsServed es d d' =
      (taken : List (List ℕ)) × (over : List (List ℕ)) × (d.rx ++ pushed es ≡ taken ++ d'.rx)
      × Perm (taken ++ d.awaited) (over ++ d'.awaited)
      × (length over ≡ finished es)
      × (d'.resp ≡ d.resp ++ given d.addr d.is_read es)

remove_at-Perm :
    (i : ℕ) (ms rest : List (List ℕ))
    → remove_at i ms ≡ some rest
    → (m : List ℕ) × Perm ms (m ∷ rest)
unfolding remove_at
remove_at-Perm i [] rest h = absurd (ground arith)
remove_at-Perm zero (m ∷ ms) rest h =
    let same : ms ≡ rest = ground arith in (m, rw same (Perm.refl (m ∷ rest)))
remove_at-Perm (suc i) (m ∷ ms) rest h = elim (Option-cases (remove_at i ms)) [
  | inl missing ↦ absurd (ground arith)
  | inr (less, found) ↦
      let (m', p) = remove_at-Perm i ms less found in
      let same : m ∷ less ≡ rest = ground arith in
      (m', rw (← same) (Perm.trans (Perm.cons m p) (Perm.swap m' m less)))
]

module _ {Addr : Type 0} where
  passed-given :
      (i : ℕ) (answer : Option (List ℕ)) (es : List DohEvent) (is_read : Bool) (addr : Addr)
      (resp : List (List ℕ × Addr))
      → passed is_read addr resp answer ++ given addr is_read es
        ≡ resp ++ given addr is_read (answers i answer ∷ es)
  passed-given i none es true addr resp = refl
  passed-given i none es false addr resp = refl
  passed-given i (some answer) es true addr resp =
      append_assoc resp ((answer, addr) ∷ []) (given addr true es)
  passed-given i (some answer) es false addr resp = refl

  given-pushes :
      (msg : List ℕ) (es : List DohEvent) (is_read : Bool) (addr : Addr)
      → given addr is_read (pushes msg ∷ es) ≡ given addr is_read es
  given-pushes msg es true addr = refl
  given-pushes msg es false addr = refl

  given-takes :
      (es : List DohEvent) (is_read : Bool) (addr : Addr)
      → given addr is_read (takes ∷ es) ≡ given addr is_read es
  given-takes es true addr = refl
  given-takes es false addr = refl

  taken-IsServed :
      (d d' : DohSender Addr) (es : List DohEvent) (m : List ℕ) (rest : List (List ℕ))
      → d.rx ≡ m ∷ rest
      → IsServed es (record d { rx = rest; awaited = d.awaited ++ m ∷ [] }) d'
      → IsServed (takes ∷ es) d d'
  taken-IsServed d d' es m rest split (taken, over, order, perm, n, resp) = (
    m ∷ taken,
    over,
    ap (λ rx. rx ++ pushed es) split ∙ ap (λ xs. m ∷ xs) order,
    Perm.trans
        (Perm.trans (Perm.symm (perm_append_singleton m (taken ++ d.awaited)))
          (rw (append_assoc taken d.awaited (m ∷ [])) (Perm.refl (taken ++ (d.awaited ++ m ∷ [])))))
        perm,
    n,
    resp ∙ ap (λ xs. d.resp ++ xs) (sym (given-takes es d.is_read d.addr)),
  )

  over-IsServed :
      (d d' : DohSender Addr) (es : List DohEvent) (i : ℕ) (answer : Option (List ℕ))
      (rest : List (List ℕ))
      → remove_at i d.awaited ≡ some rest
      → IsServed es (record d { awaited = rest; resp = passed d.is_read d.addr d.resp answer }) d'
      → IsServed (answers i answer ∷ es) d d'
  over-IsServed d d' es i answer rest found (taken, over, order, perm, n, resp) =
      let (m, removed) = remove_at-Perm i d.awaited rest found in
      (
        taken,
        m ∷ over,
        order,
        Perm.trans (Perm.append_left taken removed)
            (Perm.trans (perm_middle taken rest) (Perm.cons m perm)),
        ap suc n,
        resp ∙ passed-given i answer es d.is_read d.addr d.resp,
      )

  pushed-IsServed :
      (d d' : DohSender Addr) (es : List DohEvent) (m : List ℕ)
      → IsServed es (record d { rx = d.rx ++ m ∷ [] }) d'
      → IsServed (pushes m ∷ es) d d'
  pushed-IsServed d d' es m (taken, over, order, perm, n, resp) = (
    taken,
    over,
    sym (append_assoc d.rx (m ∷ []) (pushed es)) ∙ order,
    perm,
    n,
    resp ∙ ap (λ xs. d.resp ++ xs) (sym (given-pushes m es d.is_read d.addr)),
  )

  -- One event, and then the others.
  doh_event-IsServed :
      (e : DohEvent) (es : List DohEvent) (d d₁ d' : DohSender Addr)
      → doh_event e d ≡ some d₁
      → IsServed es d₁ d'
      → IsServed (e ∷ es) d d'
  unfolding doh_event
  doh_event-IsServed (pushes msg) es d d₁ d' h served =
      let same : record d { rx = d.rx ++ msg ∷ [] } ≡ d₁ = ground arith in
      pushed-IsServed d d' es msg (rw (← same) at served)
  doh_event-IsServed takes es d d₁ d' h served = go d.rx refl
    where
      go : (l : List (List ℕ)) → d.rx ≡ l → IsServed (takes ∷ es) d d'
      go [] e = absurd (ground arith)
      go (msg ∷ rest) e =
          let same : record d { rx = rest; awaited = d.awaited ++ msg ∷ [] } ≡ d₁ = ground arith in
          taken-IsServed d d' es msg rest e (rw (← same) at served)
  doh_event-IsServed (answers i answer) es d d₁ d' h served =
      elim (Option-cases (remove_at i d.awaited)) [
        | inl missing ↦ absurd (ground arith)
        | inr (rest, found) ↦
            let after : DohSender Addr = record d {
              awaited = rest;
              resp = passed d.is_read d.addr d.resp answer;
            } in
            let same : after ≡ d₁ = ground arith in
            over-IsServed d d' es i answer rest found (rw (← same) at served)
      ]
  doh_event-IsServed reader_gone es d d₁ d' h served =
      let same : record d { is_read = false } ≡ d₁ = ground arith in
      let (taken, over, order, perm, n, resp) = rw (← same) at served in
      (taken, over, order, perm, n, resp)

  doh_run-IsServed :
      (es : List DohEvent) (d d' : DohSender Addr) → doh_run es d ≡ some d' → IsServed es d d'
  unfolding doh_run
  doh_run-IsServed [] d d' h =
      let same : d ≡ d' = cc in
      rw (← same) ([], [], append-nil d.rx, Perm.refl d.awaited, refl, sym (append-nil d.resp))
  doh_run-IsServed (e ∷ es) d d' h = elim (Option-cases (doh_event e d)) [
    | inl stuck ↦ absurd (ground arith)
    | inr (d₁, done) ↦
        doh_event-IsServed e es d d₁ d' done (doh_run-IsServed es d₁ d' (rw (done, doh_run) at h))
  ]

-- After any events of a client that has been made, in whatever order the answers come: the messages
-- that the sender put into the channel are, in this order, those that the client took off and those
-- that are still there. Each that was taken off is a request that is over or that is awaited: in some
-- order, they are as many requests as there were answers and errors, and the requests awaited. What
-- the reader was given are the answers that came before it was dropped, in this order, each with the
-- address of the client.
pub doh_run-doh_new :
    {Addr Name : Type 0} (handshakes : Addr → Name → Bool) (target : Addr) (name_server : Name)
    (es : List DohEvent) (d d' : DohSender Addr)
    → doh_new handshakes target name_server ≡ ok d
    → doh_run es d ≡ some d'
    → (taken : List (List ℕ)) × (over : List (List ℕ)) × (pushed es ≡ taken ++ d'.rx)
      × Perm taken (over ++ d'.awaited)
      × (length over ≡ finished es)
      × (d'.resp ≡ given target true es)
unfolding doh_new
doh_run-doh_new {Addr = Addr} handshakes target name_server es d d' made ran =
    let new : DohSender Addr = record {
      rx = [];
      awaited = [];
      addr = target;
      resp = [];
      is_read = true;
    } in
    let fresh : new ≡ d = ground arith in
    let (taken, over, order, perm, n, resp) = doh_run-IsServed es new d' (rw (← fresh) at ran) in
    (taken, over, order, rw (append-nil taken) at perm, n, resp)
