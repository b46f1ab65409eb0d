-- ===== src/Meter/Sums.antt =====
-- The counts of a session against those of its servers.
use infra_sentinel.Prelude.{
  ℕ, ◌+◌, ◌≡◌, refl, sym, ◌∙◌, String, Bool, true, false, Option, none, some, List, [], ◌∷◌, arith,
  if◌then◌else◌, Bool-cases, Option-cases, inl, inr,
}
use infra_sentinel.Prelude.Int.{ℤ}
use infra_sentinel.Prelude.Dict.{Dict, get, put, string_eq}
use infra_sentinel.Prelude.Sums.{total, total-put, value_at}
use infra_sentinel.Vps
use infra_sentinel.Meter.{
  LocalSample, RemoteRow, RowBaseline, baselined, passed, raised, Counts, empty_vps, ServerTotals,
  SessionMeter, row_baseline, server_of, clear, reset, with_baseline, baseline_row, baseline_rows,
  set_vps_baseline,
}
use infra_sentinel.Meter.Recording.{
  interval_counts, add_counts, same_epoch, counts_interval, record_interval, record_from,
  record_sample, record_rows, record_remote, record_local, record_in, record_session,
}

-- What a session counts.
pub data Quantity : Type 0 where
  in_bytes out_bytes in_packets out_packets covered_in covered_out intervals packet_intervals :
      Quantity

abbrev pub amount : Quantity → Counts → ℕ
amount in_bytes c = c.in_bytes
amount out_bytes c = c.out_bytes
amount in_packets c = c.in_packets
amount out_packets c = c.out_packets
amount covered_in c = c.packet_covered_in_bytes
amount covered_out c = c.packet_covered_out_bytes
amount intervals c = c.intervals
amount packet_intervals c = c.packet_intervals

abbrev pub server_amount : Quantity → ServerTotals → ℕ
server_amount q s = amount q s.counts

-- Of each quantity the session has the sum over its servers.
abbrev pub Balances : Counts × Dict String ServerTotals → Type 0
Balances all = (q : Quantity) → amount q all.0 ≡ total (server_amount q) all.1

abbrev pub IsBalanced : SessionMeter → Type 0
IsBalanced m = Balances (m.vps, m.vps_servers)

amount-add_counts :
    (q : Quantity) (a b : Counts) → amount q (add_counts a b) ≡ amount q a + amount q b
unfolding add_counts
amount-add_counts in_bytes a b = refl
amount-add_counts out_bytes a b = refl
amount-add_counts in_packets a b = refl
amount-add_counts out_packets a b = refl
amount-add_counts covered_in a b = refl
amount-add_counts covered_out a b = refl
amount-add_counts intervals a b = refl
amount-add_counts packet_intervals a b = refl

pub amount_empty : (q : Quantity) → amount q empty_vps ≡ 0
amount_empty in_bytes = refl
amount_empty out_bytes = refl
amount_empty in_packets = refl
amount_empty out_packets = refl
amount_empty covered_in = refl
amount_empty covered_out = refl
amount_empty intervals = refl
amount_empty packet_intervals = refl

amount-server_of :
    (q : Quantity) (servers : Dict String ServerTotals) (row : RemoteRow)
    → server_amount q (server_of servers row) ≡ value_at (server_amount q) (get row.id servers)
amount-server_of q servers row = elim (Option-cases (get row.id servers)) [
  | inl h ↦ rw h (amount_empty q)
  | inr (s, h) ↦ rw h refl
]

-- A server that is put back with more of a quantity.
total_more :
    (q : Quantity) (servers : Dict String ServerTotals) (row : RemoteRow) (s : ServerTotals) (n : ℕ)
    → server_amount q s ≡ server_amount q (server_of servers row) + n
    → total (server_amount q) (put row.id s servers) ≡ total (server_amount q) servers + n
total_more q servers row s n h =
    omega (arith, h, amount-server_of q servers row, total-put (server_amount q) row.id s servers)

record_interval-Balances :
    (started : Option ℤ) (all : Counts × Dict String ServerTotals) (row : RemoteRow)
    (s : Vps.Sample) (start : ℤ)
    → Balances all
    → Balances (record_interval started all row s start)
unfolding record_interval
record_interval-Balances started (vps, servers) row s start h q =
    let server = server_of servers row in
    elim (Bool-cases (same_epoch server.last_vps_sample_epoch s.epoch)) [
      | inl same ↦ rw same (omega (arith, h q, total_more q servers row server 0 (omega arith)))
      | inr new ↦
          let seen : ServerTotals = record server {
            last_vps_sample_epoch = some s.epoch;
            vps_baselined_at = some s.epoch;
          } in
          let more : ServerTotals = record seen {
            counts = add_counts server.counts (interval_counts s);
          } in
          elim (Bool-cases (counts_interval server.vps_baselined_at started start)) [
            | inl counted ↦
                let sum = amount-add_counts q vps (interval_counts s) in
                let own = amount-add_counts q server.counts (interval_counts s) in
                rw (new, counted)
                  (omega (
                    arith,
                    h q,
                    sum,
                    total_more q servers row more (amount q (interval_counts s)) own,
                  ))
            | inr before ↦
                rw (new, before) (omega (arith, h q, total_more q servers row seen 0 (omega arith)))
          ]
    ]

record_from-Balances :
    (started : Option ℤ) (all : Counts × Dict String ServerTotals) (row : RemoteRow)
    (s : Vps.Sample) (start : Option ℤ)
    → Balances all
    → Balances (record_from started all row s start)
unfolding record_from
record_from-Balances started all row s none h = h
record_from-Balances started all row s (some start) h =
    record_interval-Balances started all row s start h

record_sample-Balances :
    (started : Option ℤ) (all : Counts × Dict String ServerTotals) (row : RemoteRow)
    (s : Option Vps.Sample)
    → Balances all
    → Balances (record_sample started all row s)
unfolding record_sample
record_sample-Balances started all row none h = h
record_sample-Balances started all row (some s) h =
    record_from-Balances started all row s s.interval_started_epoch h

record_rows-Balances :
    (started : Option ℤ) (all : Counts × Dict String ServerTotals) (rows : List RemoteRow)
    → Balances all
    → Balances (record_rows started all rows)
unfolding record_rows
record_rows-Balances started all [] h = h
record_rows-Balances started all (row ∷ rest) h =
    record_rows-Balances started (record_sample started all row row.vps.last_sample) rest
      (record_sample-Balances started all row row.vps.last_sample h)

total-baseline_row :
    (q : Quantity) (b : RowBaseline) (servers : Dict String ServerTotals) (row : RemoteRow)
    (onward : Dict String ServerTotals → Dict String ServerTotals × Bool)
    → ((next : Dict String ServerTotals)
        → total (server_amount q) (onward next).0 ≡ total (server_amount q) next)
    → total (server_amount q) (baseline_row b servers row onward).0
      ≡ total (server_amount q) servers
unfolding baseline_row
total-baseline_row q passed servers row onward h = h servers
total-baseline_row q raised servers row onward h = refl
total-baseline_row q (baselined epoch) servers row onward h =
    let next : ServerTotals = record (server_of servers row) {
      id = row.id;
      last_vps_sample_epoch = some epoch;
      vps_baselined_at = some epoch;
    } in
    omega
      (arith, h (with_baseline servers row epoch), total_more q servers row next 0 (omega arith))

total-baseline_rows :
    (q : Quantity) (servers : Dict String ServerTotals) (rows : List RemoteRow)
    → total (server_amount q) (baseline_rows servers rows).0 ≡ total (server_amount q) servers
unfolding baseline_rows
total-baseline_rows q servers [] = refl
total-baseline_rows q servers (row ∷ rest) =
    total-baseline_row q (row_baseline row) servers row (λ next. baseline_rows next rest)
      (λ next. total-baseline_rows q next rest)

set_vps_baseline-IsBalanced :
    (m : SessionMeter) (rows : List RemoteRow)
    → IsBalanced m
    → IsBalanced (set_vps_baseline m rows).0
unfolding set_vps_baseline
set_vps_baseline-IsBalanced m rows h q = h q ∙ sym (total-baseline_rows q m.vps_servers rows)

reset-IsBalanced :
    (m : SessionMeter) (epoch : ℤ) (reason : String) → IsBalanced (reset m epoch reason)
unfolding reset clear
reset-IsBalanced m epoch reason q = amount_empty q

record_remote-IsBalanced :
    (m : SessionMeter) (rows : List RemoteRow) → IsBalanced m → IsBalanced (record_remote m rows)
unfolding record_remote
record_remote-IsBalanced m rows h =
    record_rows-Balances m.started_epoch (m.vps, m.vps_servers) rows h

local-IsBalanced :
    (m : SessionMeter) (s : LocalSample) (available : Bool)
    → IsBalanced m
    → IsBalanced (if available then record_local m s else m)
unfolding record_local
local-IsBalanced m s true h = h
local-IsBalanced m s false h = h

record_in-IsBalanced :
    (started : Option ℤ) (m : SessionMeter) (s : LocalSample) (rows : List RemoteRow)
    (available : Bool)
    → IsBalanced m
    → IsBalanced (record_in started m s rows available).0
unfolding record_in
record_in-IsBalanced none m s rows available h =
    set_vps_baseline-IsBalanced (reset m s.epoch "automatic") rows
      (reset-IsBalanced m s.epoch "automatic")
record_in-IsBalanced (some started) m s rows available h =
    record_remote-IsBalanced (if available then record_local m s else m) rows
      (local-IsBalanced m s available h)

-- What happens to a meter.
pub data Event : Type 0 where
  resetting : ℤ → String → Event
  baselining : List RemoteRow → Event
  recording : LocalSample → List RemoteRow → Bool → Event

unfoldable pub after_event : SessionMeter → Event → SessionMeter
after_event m (resetting epoch reason) = reset m epoch reason
after_event m (baselining rows) = (set_vps_baseline m rows).0
after_event m (recording s rows available) = (record_session m s rows available).0

unfoldable pub run : SessionMeter → List Event → SessionMeter
run m [] = m
run m (e ∷ rest) = run (after_event m e) rest

after_event-IsBalanced :
    (m : SessionMeter) (e : Event) → IsBalanced m → IsBalanced (after_event m e)
unfolding after_event
after_event-IsBalanced m (resetting epoch reason) h = reset-IsBalanced m epoch reason
after_event-IsBalanced m (baselining rows) h = set_vps_baseline-IsBalanced m rows h
after_event-IsBalanced m (recording s rows available) h =
    record_in-IsBalanced m.started_epoch m s rows available h

-- A session that has of each quantity (bytes, packets, the bytes that packets cover, and intervals) the sum
-- over its servers has it after any sequence of resets, baselines and samples, those whose baselines end
-- with an exception included: a server that reports the same sample again, one that is not in the sample
-- and one that is new leave the overall counts and the servers' in step.
pub run-IsBalanced :
    (m : SessionMeter) (events : List Event) → IsBalanced m → IsBalanced (run m events)
unfolding run
run-IsBalanced m [] h = h
run-IsBalanced m (e ∷ rest) h = run-IsBalanced (after_event m e) rest (after_event-IsBalanced m e h)
