-- ===== src/Meter/Repeats.antt =====
-- A sample that a server reports again.
use infra_sentinel.Prelude.{
  ◌≡◌, ◌∙◌, refl, sym, ap, subst, String, str_eq, eq_iff, Bool, true, false, Option, none, some,
  List, [], ◌∷◌, All, if◌then◌else◌, Bool-cases, inl, inr,
}
use infra_sentinel.Prelude.Int.{ℤ}
use infra_sentinel.Prelude.Dict.{Dict, string_eq}
use infra_sentinel.Vps
use infra_sentinel.Meter.{LocalSample, SessionMeter, RemoteRow, Counts, ServerTotals, server_of}
use infra_sentinel.Meter.Recording.{
  record_interval, record_from, record_sample, record_rows, record_local, record_remote, recorded,
  record_in, record_session,
}
use infra_sentinel.Meter.Seen.{
  last_at, Seen, IsSeen, IsAbsent, last_at-put, last-server_of, same_epoch_iff, last-record_rows,
  record_sample-Seen, Seen-last,
}

-- No two rows have the same id.
abbrev pub AreDistinct : List RemoteRow → Type 0
AreDistinct [] = Unit
AreDistinct (row ∷ rest) = IsAbsent row.id rest × AreDistinct rest

record_rows-IsSeen :
    (started : Option ℤ) (all : Counts × Dict String ServerTotals) (rows : List RemoteRow)
    → AreDistinct rows
    → All (IsSeen (record_rows started all rows).1) rows
unfolding record_rows
record_rows-IsSeen started all [] d = tt
record_rows-IsSeen started all (row ∷ rest) d =
    let next = record_sample started all row row.vps.last_sample in
    (
      Seen-last next.1 (record_rows started next rest).1 row row.vps.last_sample
          (last-record_rows row.id started next rest d.0)
          (record_sample-Seen started all row row.vps.last_sample),
      record_rows-IsSeen started next rest d.1,
    )

-- Nothing counts, and every server stays seen with what it was.
abbrev Stays : Counts × Dict String ServerTotals → Counts × Dict String ServerTotals → Type 0
Stays all next = (next.0 ≡ all.0) × ((id : String) → last_at id next.1 ≡ last_at id all.1)

record_interval-Stays :
    (started : Option ℤ) (all : Counts × Dict String ServerTotals) (row : RemoteRow)
    (s : Vps.Sample) (start : ℤ)
    → last_at row.id all.1 ≡ some s.epoch
    → Stays all (record_interval started all row s start)
unfolding record_interval
record_interval-Stays started (vps, servers) row s start h =
    let server = server_of servers row in
    let same =
      (same_epoch_iff server.last_vps_sample_epoch s.epoch).1 (last-server_of servers row ∙ h) in
    rw same (
      refl,
      λ id.
          last_at-put id row.id server servers (last_at row.id servers) (last-server_of servers row)
          ∙ own id,
    )
  where
    own :
        (id : String)
        → (if str_eq row.id id then last_at row.id servers else last_at id servers)
          ≡ last_at id servers
    own id = elim (Bool-cases (str_eq row.id id)) [
      | inl e ↦ rw e (ap (λ k. last_at k servers) ((eq_iff row.id id).0 e))
      | inr e ↦ rw e refl
    ]

record_from-Stays :
    (started : Option ℤ) (all : Counts × Dict String ServerTotals) (row : RemoteRow)
    (s : Vps.Sample) (start : Option ℤ)
    → ((at : ℤ) → start ≡ some at → last_at row.id all.1 ≡ some s.epoch)
    → Stays all (record_from started all row s start)
unfolding record_from
record_from-Stays started all row s none h = (refl, λ id. refl)
record_from-Stays started all row s (some start) h =
    record_interval-Stays started all row s start (h start refl)

record_sample-Stays :
    (started : Option ℤ) (all : Counts × Dict String ServerTotals) (row : RemoteRow)
    (o : Option Vps.Sample)
    → Seen all.1 row o
    → Stays all (record_sample started all row o)
unfolding record_sample
record_sample-Stays started all row none h = (refl, λ id. refl)
record_sample-Stays started all row (some s) h =
    record_from-Stays started all row s s.interval_started_epoch h

All-Seen :
    (servers next : Dict String ServerTotals) (rows : List RemoteRow)
    → ((id : String) → last_at id next ≡ last_at id servers)
    → All (IsSeen servers) rows
    → All (IsSeen next) rows
All-Seen servers next [] e h = tt
All-Seen servers next (row ∷ rest) e h = (
  Seen-last servers next row row.vps.last_sample (e row.id) h.0,
  All-Seen servers next rest e h.1,
)

record_rows-Stays :
    (started : Option ℤ) (all : Counts × Dict String ServerTotals) (rows : List RemoteRow)
    → All (IsSeen all.1) rows
    → (record_rows started all rows).0 ≡ all.0
unfolding record_rows
record_rows-Stays started all [] h = refl
record_rows-Stays started all (row ∷ rest) h =
    let next = record_sample started all row row.vps.last_sample in
    let (same, seen) = record_sample-Stays started all row row.vps.last_sample h.0 in
    record_rows-Stays started next rest (All-Seen all.1 next.1 rest seen h.1) ∙ same

record_rows_again :
    (started : Option ℤ) (all : Counts × Dict String ServerTotals) (rows : List RemoteRow)
    → AreDistinct rows
    → (record_rows started (record_rows started all rows) rows).0 ≡ (record_rows started all rows).0
record_rows_again started all rows d =
    record_rows-Stays started (record_rows started all rows) rows
      (record_rows-IsSeen started all rows d)

recorded_rows :
    (m : SessionMeter) (s : LocalSample) (rows : List RemoteRow) (available : Bool)
    → let next = recorded m s rows available in
      (next.started_epoch ≡ m.started_epoch)
      × ((next.vps, next.vps_servers) ≡ record_rows m.started_epoch (m.vps, m.vps_servers) rows)
unfolding record_remote record_local
recorded_rows m s rows true = (refl, refl)
recorded_rows m s rows false = (refl, refl)

record_session_started :
    (m : SessionMeter) (started : ℤ) (s : LocalSample) (rows : List RemoteRow) (a : Bool)
    → m.started_epoch ≡ some started
    → (record_session m s rows a).0 ≡ recorded m s rows a
unfolding record_in
record_session_started m started s rows a h = ap (λ o. (record_in o m s rows a).0) h

-- Two samples in a session that has started, with the same state of the servers, each with an id of its
-- own: the second leaves the counts of the intervals as the first left them, whatever the local samples are
-- and whether they are available. An interval that a server goes on showing counts once.
pub record_again :
    (m : SessionMeter) (started : ℤ) (s t : LocalSample) (rows : List RemoteRow) (a b : Bool)
    → m.started_epoch ≡ some started
    → AreDistinct rows
    → let once = (record_session m s rows a).0 in (record_session once t rows b).0.vps ≡ once.vps
record_again m started s t rows a b h d =
    let once = recorded m s rows a in
    let (start, first) = recorded_rows m s rows a in
    let second = (recorded_rows once t rows b).1 in
    let same : (recorded once t rows b).vps ≡ once.vps =
      ap (λ p. p.0) second
      ∙ ap (λ o. (record_rows o (once.vps, once.vps_servers) rows).0) start
      ∙ ap (λ p. (record_rows m.started_epoch p rows).0) first
      ∙ record_rows_again m.started_epoch (m.vps, m.vps_servers) rows d
      ∙ sym (ap (λ p. p.0) first) in
    subst (λ x. (record_session x t rows b).0.vps ≡ x.vps)
      (sym (record_session_started m started s rows a h))
      (ap (λ x. x.vps) (record_session_started once started t rows b (start ∙ h)) ∙ same)
