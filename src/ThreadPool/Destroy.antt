-- ===== src/ThreadPool/Destroy.antt =====
-- The steps of sgx_thread_pool_destroy keep the invariant.
use sginx.Base.{
  ℕ, ◌+◌, ◌≡◌, inl, inr, subst, refl, sym, ap, ◌∙◌, true, false, Option, none, some, List, [], ◌∷◌,
  ◌++◌, ◌==◌, arith, Bool-cases, append_assoc,
}
use sginx.ThreadPool.{
  Work, Place, want_lock, looking, before_wait, waiting, woken, testing, exited, running, Phase,
  idle, flagged, draining, gone, joining, Pool, wake, has_exited, broadcast, drain, destroy_at,
  destroy_step,
}
use sginx.ThreadPool.Invariant.{holds, sleeps, IsAt, IsSound, OnMove}

holds-wake : (p : Place) → holds (wake p) ≡ holds p
holds-wake want_lock = refl
holds-wake looking = refl
holds-wake before_wait = refl
holds-wake waiting = refl
holds-wake woken = refl
holds-wake testing = refl
holds-wake exited = refl
holds-wake (running w) = refl

sleeps-wake : (p : Place) → holds p ≡ false → sleeps (wake p) ≡ false
sleeps-wake want_lock h = refl
sleeps-wake looking h = refl
sleeps-wake before_wait h = absurd (ground arith)
sleeps-wake waiting h = refl
sleeps-wake woken h = refl
sleeps-wake testing h = refl
sleeps-wake exited h = refl
sleeps-wake (running w) h = refl

broadcast-IsSound :
    (s : Pool) (lock : Option ℕ)
    → IsSound s
    → s.lock ≡ lock
    → s.phase ≡ flagged
    → OnMove IsSound (broadcast lock s)
broadcast-IsSound s (some j) v e at = tt
broadcast-IsSound s none v e at =
    let start : IsAt flagged s = subst (λ p. IsAt p s) at v.phase_sound in
    record {
      holder = λ j. ground (arith, v.holder j, holds-wake (s.place j));
      inside = λ j. ground (arith, v.inside j);
      looked = λ j h live. absurd (ground (arith, start.0));
      found_none = λ j. ground (arith, v.holder j, holds-wake (s.place j));
      awake = λ more some_workers.
          let (j, lt, up) = v.awake more some_workers in
          (j, lt, sleeps-wake (s.place j) (ground (arith, v.holder j)));
      exits = λ j h. start.0;
      in_order = v.in_order;
      phase_sound = (
        start.0,
        start.1,
        omega arith,
        (λ j lt. absurd (omega arith)),
        λ j. sleeps-wake (s.place j) (ground (arith, v.holder j)),
      );
    }

drain-IsSound :
    (s : Pool) (now : List Work)
    → IsSound s
    → s.now ≡ now
    → s.phase ≡ draining
    → OnMove IsSound (drain now s)
drain-IsSound s [] v same at =
    let start : IsAt draining s = subst (λ p. IsAt p s) at v.phase_sound in
    record {
      holder = v.holder;
      inside = v.inside;
      looked = v.looked;
      found_none = v.found_none;
      awake = v.awake;
      exits = v.exits;
      in_order = v.in_order;
      phase_sound = (start.0, start.1, same);
    }
drain-IsSound s (w ∷ ws) v same at =
    let start : IsAt draining s = subst (λ p. IsAt p s) at v.phase_sound in
    record {
      holder = v.holder;
      inside = v.inside;
      looked = λ j h live. absurd (ground (arith, start.0));
      found_none = λ j h. absurd (ground (arith, v.found_none j));
      awake = λ more some_workers. (0, some_workers, ground (arith, start.1 0 some_workers));
      exits = v.exits;
      in_order =
          rw (v.in_order, same)
            (sym (append_assoc (s.taken ++ s.dropped) (w ∷ []) ws)
              ∙ ap (λ l. l ++ ws) (append_assoc s.taken s.dropped (w ∷ [])));
      phase_sound = rw at start;
    }

-- the invariant but for the phase does not mention the phase
with_phase :
    (s : Pool) (phase : Phase)
    → IsSound s
    → IsAt phase (record s { phase = phase })
    → IsSound (record s { phase = phase })
with_phase s phase v h = record {
  holder = v.holder;
  inside = v.inside;
  looked = v.looked;
  found_none = v.found_none;
  awake = v.awake;
  exits = v.exits;
  in_order = v.in_order;
  phase_sound = h;
}

shut-IsSound :
    (s : Pool) → IsSound s → IsAt idle s → IsSound (record s { shutdown = true; phase = flagged })
shut-IsSound s v h = record {
  holder = v.holder;
  inside = v.inside;
  looked = λ j at live. absurd (ground arith);
  found_none = v.found_none;
  awake = v.awake;
  exits = λ j at. refl;
  in_order = v.in_order;
  phase_sound = (refl, h.1);
}

has_exited_lem : (p : Place) → has_exited p ≡ true → p ≡ exited
has_exited_lem exited h = refl
has_exited_lem want_lock h = absurd (ground arith)
has_exited_lem looking h = absurd (ground arith)
has_exited_lem before_wait h = absurd (ground arith)
has_exited_lem waiting h = absurd (ground arith)
has_exited_lem woken h = absurd (ground arith)
has_exited_lem testing h = absurd (ground arith)
has_exited_lem (running w) h = absurd (ground arith)

destroy_at-IsSound :
    (s : Pool) (phase : Phase) → IsSound s → s.phase ≡ phase → OnMove IsSound (destroy_at phase s)
unfolding destroy_at
destroy_at-IsSound s idle v at =
    let start : IsAt idle s = subst (λ p. IsAt p s) at v.phase_sound in
    rw start.0 (shut-IsSound s v start)
destroy_at-IsSound s flagged v at = broadcast-IsSound s s.lock v refl at
destroy_at-IsSound s (joining k) v at =
    let (down, kept, le, done, up) : IsAt (joining k) s = subst (λ p. IsAt p s) at v.phase_sound in
    elim (Bool-cases (k == s.max_num)) [
      | inl all ↦ rw all (with_phase s draining v (down, λ j lt. done j (ground arith)))
      | inr more ↦ elim (Bool-cases (has_exited (s.place k))) [
        | inl over ↦
            rw (more, over)
              (with_phase s (joining (k + 1)) v (
                down,
                kept,
                ground arith,
                (λ j lt. ground (arith, done j, has_exited_lem (s.place k) over)),
                up,
              ))
        | inr still ↦ rw (more, still) tt
      ]
    ]
destroy_at-IsSound s draining v at = drain-IsSound s s.now v refl at
destroy_at-IsSound s gone v at = tt

pub destroy-IsSound : (s : Pool) → IsSound s → OnMove IsSound (destroy_step s)
unfolding destroy_step
destroy-IsSound s v = destroy_at-IsSound s s.phase v refl
