-- ===== src/Vps/Log.antt =====
-- What the logged samples of a server add up to, over any polls.
use infra_sentinel.Prelude.{
  ℕ, ◌+◌, ◌≤◌, ◌≡◌, ◌⊎◌, inl, inr, refl, ◌∙◌, ap, String, Bool, true, false, not, ◌||◌,
  if◌then◌else◌, some, List, [], ◌∷◌, ◌++◌, arith,
}
use infra_sentinel.Prelude.Int.{ℤ, pos, ◌+ℤ◌, leb_ℤ}
use infra_sentinel.Vps.{
  Baseline, Reading, Sample, VpsMonitor, Poll, unread, unsaved, read, apply, baseline, sum_bytes,
  fail_poll, finish_poll, poll, disabled, maybe_poll,
}
use infra_sentinel.Vps.Deltas.{apply_deltas}

pub data Direction : Type 0 where
  incoming outgoing : Direction

abbrev pub read_bytes : Direction → Reading → ℕ
read_bytes incoming raw = raw.in_bytes
read_bytes outgoing raw = raw.out_bytes

abbrev pub counter_bytes : Direction → Baseline → ℕ
counter_bytes incoming b = b.in_bytes
counter_bytes outgoing b = b.out_bytes

abbrev sample_bytes : Direction → Sample → ℕ
sample_bytes incoming s = s.in_bytes
sample_bytes outgoing s = s.out_bytes

-- The bytes of the log.
abbrev pub logged_bytes : Direction → List Sample → ℕ
logged_bytes incoming samples = (sum_bytes samples).0
logged_bytes outgoing samples = (sum_bytes samples).1

in_sum :
    (xs : List Sample) (s : Sample) → (sum_bytes (xs ++ (s ∷ []))).0 ≡ (sum_bytes xs).0 + s.in_bytes
unfolding sum_bytes
in_sum [] s = omega arith
in_sum (x ∷ xs) s = omega (arith, in_sum xs s)

out_sum :
    (xs : List Sample) (s : Sample)
    → (sum_bytes (xs ++ (s ∷ []))).1 ≡ (sum_bytes xs).1 + s.out_bytes
unfolding sum_bytes
out_sum [] s = omega arith
out_sum (x ∷ xs) s = omega (arith, out_sum xs s)

logged_bytes_append :
    (d : Direction) (xs : List Sample) (s : Sample)
    → logged_bytes d (xs ++ (s ∷ [])) ≡ logged_bytes d xs + sample_bytes d s
logged_bytes_append incoming xs s = in_sum xs s
logged_bytes_append outgoing xs s = out_sum xs s

counter-baseline :
    (d : Direction) (raw : Reading) → counter_bytes d (baseline raw) ≡ read_bytes d raw
unfolding baseline
counter-baseline incoming raw = refl
counter-baseline outgoing raw = refl

delta_of :
    (d : Direction) (prior : Baseline) (raw : Reading)
    → let sample = (apply (some prior) raw).1 in
      (sample_bytes d sample ≡ 0)
      ⊎ (counter_bytes d prior + sample_bytes d sample ≡ read_bytes d raw)
delta_of incoming prior raw = elim (apply_deltas prior raw).0 [
  | inl nothing ↦ inl nothing
  | inr (same, growth) ↦ inr growth
]
delta_of outgoing prior raw = elim (apply_deltas prior raw).1 [
  | inl nothing ↦ inl nothing
  | inr (same, growth) ↦ inr growth
]

in_branches :
    (P : VpsMonitor → Type 0) (on due : Bool) (x y z : VpsMonitor)
    → P x
    → P y
    → P z
    → P (if not on then x else if due then y else z)
in_branches P false due x y z p q r = p
in_branches P true true x y z p q r = q
in_branches P true false x y z p q r = r

-- The polls' readings are of one interface, and its counter never falls from one to the next.
abbrev pub IsRising : Direction → String → ℕ → List (ℤ × Bool × Poll) → Type 0
IsRising d interface bound [] = Unit
IsRising d interface bound ((now, force, unread text) ∷ rest) = IsRising d interface bound rest
IsRising d interface bound ((now, force, unsaved raw text) ∷ rest) =
    (raw.interface ≡ interface)
    × (bound ≤ read_bytes d raw)
    × IsRising d interface (read_bytes d raw) rest
IsRising d interface bound ((now, force, read raw) ∷ rest) =
    (raw.interface ≡ interface)
    × (bound ≤ read_bytes d raw)
    × IsRising d interface (read_bytes d raw) rest

-- The bytes of the log, from some count on, are at most the baseline's counter.
pub record IsCounted (d : Direction) (interface : String) (base bound : ℕ) (m : VpsMonitor)
    : Type 0 where
  pub counter : Baseline
  pub there : m.tracker ≡ some counter
  pub named : counter.interface ≡ interface
  pub reached : counter_bytes d counter ≤ bound
  pub counted : base + logged_bytes d m.samples ≤ counter_bytes d counter

module _ (iso_now : ℤ → String) (daily_usage_start_epoch : ℤ → ℤ) where
  -- `maybe_poll` at each of a sequence of times.
  unfoldable pub run : VpsMonitor → List (ℤ × Bool × Poll) → VpsMonitor
  run m [] = m
  run m ((now, force, outcome) ∷ rest) =
      run (maybe_poll iso_now daily_usage_start_epoch m now force outcome) rest

  abbrev IsCountedAfter : Direction → String → ℕ → ℕ → VpsMonitor → Poll → Type 0
  IsCountedAfter d interface base bound m (unread text) = IsCounted d interface base bound m
  IsCountedAfter d interface base bound m (unsaved raw text) =
      IsCounted d interface base (read_bytes d raw) m
  IsCountedAfter d interface base bound m (read raw) =
      IsCounted d interface base (read_bytes d raw) m

  -- A reading of the same interface, not below the bound.
  abbrev IsNext : Direction → String → ℕ → Poll → Type 0
  IsNext d interface bound (unread text) = Unit
  IsNext d interface bound (unsaved raw text) =
      (raw.interface ≡ interface) × (bound ≤ read_bytes d raw)
  IsNext d interface bound (read raw) = (raw.interface ≡ interface) × (bound ≤ read_bytes d raw)

  raised :
      (d : Direction) (interface : String) (base bound higher : ℕ) (m : VpsMonitor)
      → bound ≤ higher
      → IsCounted d interface base bound m
      → IsCounted d interface base higher m
  raised d interface base bound higher m le h = record {
    counter = h.counter;
    there = h.there;
    named = h.named;
    reached = omega (arith, h.reached, le);
    counted = h.counted;
  }

  transfer :
      (d : Direction) (interface : String) (base bound : ℕ) (m n : VpsMonitor)
      → n.tracker ≡ m.tracker
      → n.samples ≡ m.samples
      → IsCounted d interface base bound m
      → IsCounted d interface base bound n
  transfer d interface base bound m n t l h = record {
    counter = h.counter;
    there = t ∙ h.there;
    named = h.named;
    reached = h.reached;
    counted = omega (arith, h.counted, ap (logged_bytes d) l);
  }

  kept :
      (d : Direction) (interface : String) (base bound : ℕ) (m : VpsMonitor) (outcome : Poll)
      → IsNext d interface bound outcome
      → IsCounted d interface base bound m
      → IsCountedAfter d interface base bound m outcome
  kept d interface base bound m (unread text) n h = h
  kept d interface base bound m (unsaved raw text) n h =
      raised d interface base bound (read_bytes d raw) m n.1 h
  kept d interface base bound m (read raw) n h =
      raised d interface base bound (read_bytes d raw) m n.1 h

  polled :
      (d : Direction) (interface : String) (base bound : ℕ) (m : VpsMonitor) (now : ℤ)
      (outcome : Poll)
      → IsNext d interface bound outcome
      → IsCounted d interface base bound m
      → IsCountedAfter d interface base bound
          (poll iso_now daily_usage_start_epoch m now outcome)
          outcome
  unfolding poll fail_poll finish_poll apply baseline
  polled d interface base bound m now (unread text) n h = record {
    counter = h.counter;
    there = h.there;
    named = h.named;
    reached = h.reached;
    counted = h.counted;
  }
  polled d interface base bound m now (unsaved raw text) n h = record {
    counter = baseline raw;
    there = refl;
    named = n.0;
    reached = omega (arith, counter-baseline d raw);
    counted = omega (arith, counter-baseline d raw, h.counted, h.reached, n.1);
  }
  polled d interface base bound m now (read raw) n h =
      let grown : base + logged_bytes d m.samples + sample_bytes d (apply m.tracker raw).1
          ≤ read_bytes d raw =
        rw h.there (elim (delta_of d h.counter raw) [
          | inl nothing ↦ omega (arith, nothing, h.counted, h.reached, n.1)
          | inr growth ↦ omega (arith, growth, h.counted)
        ]) in
      record {
        counter = baseline raw;
        there = refl;
        named = n.0;
        reached = omega (arith, counter-baseline d raw);
        counted = omega (
          arith,
          counter-baseline d raw,
          logged_bytes_append d m.samples (apply m.tracker raw).1,
          grown,
        );
      }

  stepped :
      (d : Direction) (interface : String) (base bound : ℕ) (m : VpsMonitor) (now : ℤ)
      (force : Bool) (outcome : Poll)
      → IsNext d interface bound outcome
      → IsCounted d interface base bound m
      → IsCountedAfter d interface base bound
          (maybe_poll iso_now daily_usage_start_epoch m now force outcome)
          outcome
  unfolding maybe_poll disabled
  stepped d interface base bound m now force outcome n h =
      let waiting = record m { next_poll_at = now +ℤ pos m.poll_seconds } in
      let off = disabled iso_now daily_usage_start_epoch m now in
      in_branches (λ x. IsCountedAfter d interface base bound x outcome) m.enabled
        (force || leb_ℤ m.next_poll_at now) off
        (poll iso_now daily_usage_start_epoch waiting now outcome) m
        (kept d interface base bound off outcome n
          (transfer d interface base bound m off refl refl h))
        (polled d interface base bound waiting now outcome n
          (transfer d interface base bound m waiting refl refl h))
        (kept d interface base bound m outcome n h)

  -- Whatever the polls come to (no reading, a reading that is not saved, a sample that is logged), and
  -- whether they are due or not: over readings of one interface whose counter of a direction, inwards or
  -- outwards, never falls, the bytes of that direction in the log together with what was counted before stay
  -- at most the counter of the baseline, so that an interval can be lost and is never counted again.
  pub run-IsCounted :
      (d : Direction) (interface : String) (base bound : ℕ) (m : VpsMonitor)
      (polls : List (ℤ × Bool × Poll))
      → IsRising d interface bound polls
      → IsCounted d interface base bound m
      → (last : ℕ) × IsCounted d interface base last (run m polls)
  unfolding run
  run-IsCounted d interface base bound m [] r h = (bound, h)
  run-IsCounted d interface base bound m ((now, force, unread text) ∷ rest) r h =
      run-IsCounted d interface base bound
        (maybe_poll iso_now daily_usage_start_epoch m now force (unread text)) rest r
        (stepped d interface base bound m now force (unread text) tt h)
  run-IsCounted d interface base bound m ((now, force, unsaved raw text) ∷ rest) r h =
      run-IsCounted d interface base (read_bytes d raw)
        (maybe_poll iso_now daily_usage_start_epoch m now force (unsaved raw text)) rest r.2
        (stepped d interface base bound m now force (unsaved raw text) (r.0, r.1) h)
  run-IsCounted d interface base bound m ((now, force, read raw) ∷ rest) r h =
      run-IsCounted d interface base (read_bytes d raw)
        (maybe_poll iso_now daily_usage_start_epoch m now force (read raw)) rest r.2
        (stepped d interface base bound m now force (read raw) (r.0, r.1) h)
