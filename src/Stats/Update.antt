-- ===== src/Stats/Update.antt =====
-- bin/src/stats.rs, `StatsTracker`: what an answer adds to the counts, and what a report takes.
use nailgun.Prelude.{
  ℕ, ◌+◌, ◌-◌, ◌%◌, ◌≤◌, ◌<◌, min, max, ◌≡◌, refl, ◌⊎◌, inl, inr, arith, leb, ◌==◌, if◌then◌else◌,
  Bool-cases, length, ok, Result-cases, u64_mod, add64, duration_limit,
}
use nailgun.Prelude.Assoc.{sum_at, sum_at-entry_add}
use nailgun.Msg.{BufMsg, rcode}
use nailgun.Store.{QueryInfo}
use nailgun.Stats.Interval.{no_latency}
use nailgun.Stats.Tracker.{StatsTracker, update, default}

-- The tracker's latencies agree with each other: none is counted and the bounds are those of no
-- latency, or the bounds are in order and each is at most the sum.
pub record IsConsistent (t : StatsTracker) : Type 0 where
  pub high : t.max_latency ≤ t.total_latency
  pub ordered : (t.min_latency ≡ no_latency) ⊎ (t.min_latency ≤ t.max_latency)
  pub low : t.min_latency ≤ no_latency

default-IsConsistent : IsConsistent default
unfolding default
default-IsConsistent = record { high = omega arith; ordered = inl refl; low = omega arith }

module _ {Addr : Type 0} (now : ℕ) (qinfo : QueryInfo) (msg : BufMsg Addr) (t : StatsTracker) where
  -- An answer whose code can be read, and whose latency does not overflow the sum: the tracker takes
  -- it in. Every count grows as it should, modulo 2 ^ 64: one answer, one response with its code and
  -- none with another, the length of the query and of the answer; the number of frames and the
  -- counters that the sender shares stay.
  update_counts :
      (code : ℕ)
      → rcode msg ≡ ok code
      → t.total_latency + (now - qinfo.sent) < duration_limit
      → (t' : StatsTracker) × (update now qinfo msg t ≡ ok t')
        × (t'.ok_recv ≡ add64 t.ok_recv 1)
        × ((j : ℕ)
            → sum_at j t'.rcodes % u64_mod
              ≡ (sum_at j t.rcodes + (if code == j then 1 else 0)) % u64_mod)
        × (t'.buf_size ≡ add64 t.buf_size qinfo.len)
        × (t'.recv_buf_size ≡ add64 t.recv_buf_size (length msg.buf))
        × (t'.recv ≡ t.recv)
        × (t'.atomic_store ≡ t.atomic_store)
  unfolding update
  update_counts code known fits = elim (Result-cases (update now qinfo msg t)) [
    | inr (f, e) ↦ absurd (ground arith)
    | inl (t', e) ↦ (
      t',
      e,
      ground arith,
      λ j. ground (arith, sum_at-entry_add code j 1 t.rcodes),
      ground arith,
      ground arith,
      ground arith,
      ground arith,
    )
  ]

  -- The latency of an answer that comes after its query is in the sum and within the bounds, which
  -- only widen; an answer whose query is stamped later than the time read has none, and leaves them.
  update_latencies :
      {t' : StatsTracker}
      → update now qinfo msg t ≡ ok t'
      → ((qinfo.sent ≤ now)
          × (t'.total_latency ≡ t.total_latency + (now - qinfo.sent))
          × (t'.min_latency ≡ min t.min_latency (now - qinfo.sent))
          × (t'.max_latency ≡ max t.max_latency (now - qinfo.sent)))
        ⊎ ((now < qinfo.sent)
            × (t'.total_latency ≡ t.total_latency)
            × (t'.min_latency ≡ t.min_latency)
            × (t'.max_latency ≡ t.max_latency))
  unfolding update
  update_latencies h = elim (Bool-cases (leb qinfo.sent now)) [
    | inl after ↦ inl (ground arith, ground arith, ground arith, ground arith)
    | inr before ↦ inr (ground arith, ground arith, ground arith, ground arith)
  ]

  -- What the tracker knows of latencies stays consistent with each answer.
  update-IsConsistent :
      {t' : StatsTracker} → update now qinfo msg t ≡ ok t' → IsConsistent t → IsConsistent t'
  update-IsConsistent {t'} h c = let latencies = update_latencies h in ground arith

  -- An answer whose code can be read, and whose latency does not overflow the sum: the tracker takes
  -- it in. One answer is counted, one response with its code and none with another, and the lengths
  -- of query and answer, each modulo 2 ^ 64; the number of frames and the counters that the sender
  -- shares stay. A latency is in the sum and within the bounds, which only widen; an answer whose
  -- query is stamped later than the time read has none, and leaves them. Bounds and sum that agree
  -- with each other still do.
  pub update_lem :
      (code : ℕ)
      → rcode msg ≡ ok code
      → t.total_latency + (now - qinfo.sent) < duration_limit
      → (t' : StatsTracker) × (update now qinfo msg t ≡ ok t')
        × ((t'.ok_recv ≡ add64 t.ok_recv 1)
            × ((j : ℕ)
                → sum_at j t'.rcodes % u64_mod
                  ≡ (sum_at j t.rcodes + (if code == j then 1 else 0)) % u64_mod)
            × (t'.buf_size ≡ add64 t.buf_size qinfo.len)
            × (t'.recv_buf_size ≡ add64 t.recv_buf_size (length msg.buf))
            × (t'.recv ≡ t.recv)
            × (t'.atomic_store ≡ t.atomic_store))
        × (((qinfo.sent ≤ now)
              × (t'.total_latency ≡ t.total_latency + (now - qinfo.sent))
              × (t'.min_latency ≡ min t.min_latency (now - qinfo.sent))
              × (t'.max_latency ≡ max t.max_latency (now - qinfo.sent)))
            ⊎ ((now < qinfo.sent)
                × (t'.total_latency ≡ t.total_latency)
                × (t'.min_latency ≡ t.min_latency)
                × (t'.max_latency ≡ t.max_latency)))
        × (IsConsistent t → IsConsistent t')
  update_lem code known fits =
      let (t', e, ok_recv, rcodes, sent_size, recv_size, recv, shared) =
        update_counts code known fits in
      (
        t',
        e,
        (ok_recv, rcodes, sent_size, recv_size, recv, shared),
        update_latencies e,
        update-IsConsistent e,
      )
