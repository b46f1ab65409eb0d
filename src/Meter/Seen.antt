-- ===== src/Meter/Seen.antt =====
-- The sample that a server was last seen with.
use infra_sentinel.Prelude.{
  ◌≡◌, ◌∙◌, refl, ap, String, str_eq, eq_iff, true, false, Option, none, some, List, [], ◌∷◌, All,
  arith, if◌then◌else◌, Bool-cases, Option-cases, inl, inr,
}
use infra_sentinel.Prelude.Int.{ℤ, eqb_ℤ_iff}
use infra_sentinel.Prelude.Dict.{Dict, get, put, get-put, string_eq}
use infra_sentinel.Vps
use infra_sentinel.Meter.{RemoteRow, Counts, ServerTotals, server_of}
use infra_sentinel.Meter.Recording.{
  interval_counts, add_counts, same_epoch, counts_interval, record_interval, record_from,
  record_sample, record_rows,
}

abbrev pub last_epoch : Option ServerTotals → Option ℤ
last_epoch none = none
last_epoch (some s) = s.last_vps_sample_epoch

abbrev pub last_at : String → Dict String ServerTotals → Option ℤ
last_at id servers = last_epoch (get id servers)

pub last_at-put :
    (id : String) (k : String) (s : ServerTotals) (servers : Dict String ServerTotals)
    (epoch : Option ℤ)
    → s.last_vps_sample_epoch ≡ epoch
    → last_at id (put k s servers) ≡ (if str_eq k id then epoch else last_at id servers)
last_at-put id k s servers epoch h = elim (Bool-cases (str_eq k id)) [
  | inl same ↦ rw (get-put k id s servers, same) h
  | inr other ↦ rw (get-put k id s servers, other) refl
]

pub last-server_of :
    (servers : Dict String ServerTotals) (row : RemoteRow)
    → (server_of servers row).last_vps_sample_epoch ≡ last_at row.id servers
last-server_of servers row = elim (Option-cases (get row.id servers)) [
  | inl h ↦ rw h refl
  | inr (s, h) ↦ rw h refl
]

pub same_epoch_iff :
    (o : Option ℤ) (epoch : ℤ)
    → (same_epoch o epoch ≡ true → o ≡ some epoch) × (o ≡ some epoch → same_epoch o epoch ≡ true)
same_epoch_iff none epoch = (λ h. absurd (ground (arith, h)), λ h. absurd (ground (arith, h)))
same_epoch_iff (some e) epoch =
    (λ h. ap some ((eqb_ℤ_iff e epoch).0 h), λ h. (eqb_ℤ_iff e epoch).1 (ground (arith, h)))

-- Whatever it counts, a sample is the last that its server was seen with.
last-record_interval :
    (id : String) (started : Option ℤ) (all : Counts × Dict String ServerTotals) (row : RemoteRow)
    (s : Vps.Sample) (start : ℤ)
    → last_at id (record_interval started all row s start).1
      ≡ (if str_eq row.id id then some s.epoch else last_at id all.1)
unfolding record_interval
last-record_interval id started (vps, servers) row s start =
    let server = server_of servers row in
    elim (Bool-cases (same_epoch server.last_vps_sample_epoch s.epoch)) [
      | inl same ↦ rw same (
          last_at-put id row.id server servers (some s.epoch)
            ((same_epoch_iff server.last_vps_sample_epoch s.epoch).0 same))
      | inr new ↦
          let seen : ServerTotals = record server {
            last_vps_sample_epoch = some s.epoch;
            vps_baselined_at = some s.epoch;
          } in
          let more : ServerTotals = record seen {
            counts = add_counts server.counts (interval_counts s);
          } in
          elim (Bool-cases (counts_interval server.vps_baselined_at started start)) [
            | inl counted ↦
                rw (new, counted) (last_at-put id row.id more servers (some s.epoch) refl)
            | inr before ↦ rw (new, before) (last_at-put id row.id seen servers (some s.epoch) refl)
          ]
    ]

-- What a row would count has been seen.
abbrev pub Seen : Dict String ServerTotals → RemoteRow → Option Vps.Sample → Type 0
Seen servers row none = Unit
Seen servers row (some s) =
    (start : ℤ) → s.interval_started_epoch ≡ some start → last_at row.id servers ≡ some s.epoch

abbrev pub IsSeen : Dict String ServerTotals → RemoteRow → Type 0
IsSeen servers row = Seen servers row row.vps.last_sample

pub Seen-last :
    (servers next : Dict String ServerTotals) (row : RemoteRow) (o : Option Vps.Sample)
    → last_at row.id next ≡ last_at row.id servers
    → Seen servers row o
    → Seen next row o
Seen-last servers next row none e h = tt
Seen-last servers next row (some s) e h = λ start b. e ∙ h start b

record_from-Seen :
    (started : Option ℤ) (all : Counts × Dict String ServerTotals) (row : RemoteRow)
    (s : Vps.Sample) (start : Option ℤ)
    → (at : ℤ) → start ≡ some at
    → last_at row.id (record_from started all row s start).1 ≡ some s.epoch
unfolding record_from
record_from-Seen started all row s none at e = absurd (ground (arith, e))
record_from-Seen started all row s (some start) at e =
    last-record_interval row.id started all row s start
    ∙ ap (λ b. if b then some s.epoch else last_at row.id all.1) ((eq_iff row.id row.id).1 refl)

pub record_sample-Seen :
    (started : Option ℤ) (all : Counts × Dict String ServerTotals) (row : RemoteRow)
    (o : Option Vps.Sample)
    → Seen (record_sample started all row o).1 row o
unfolding record_sample
record_sample-Seen started all row none = tt
record_sample-Seen started all row (some s) =
    record_from-Seen started all row s s.interval_started_epoch

-- Another server's row.
last-record_from :
    (id : String) (started : Option ℤ) (all : Counts × Dict String ServerTotals) (row : RemoteRow)
    (s : Vps.Sample) (start : Option ℤ)
    → str_eq row.id id ≡ false
    → last_at id (record_from started all row s start).1 ≡ last_at id all.1
unfolding record_from
last-record_from id started all row s none h = refl
last-record_from id started all row s (some start) h =
    last-record_interval id started all row s start
    ∙ ap (λ b. if b then some s.epoch else last_at id all.1) h

last-record_sample :
    (id : String) (started : Option ℤ) (all : Counts × Dict String ServerTotals) (row : RemoteRow)
    (o : Option Vps.Sample)
    → str_eq row.id id ≡ false
    → last_at id (record_sample started all row o).1 ≡ last_at id all.1
unfolding record_sample
last-record_sample id started all row none h = refl
last-record_sample id started all row (some s) h =
    last-record_from id started all row s s.interval_started_epoch h

abbrev pub IsAbsent : String → List RemoteRow → Type 0
IsAbsent id rows = All (λ (r : RemoteRow). str_eq r.id id ≡ false) rows

pub last-record_rows :
    (id : String) (started : Option ℤ) (all : Counts × Dict String ServerTotals)
    (rows : List RemoteRow)
    → IsAbsent id rows
    → last_at id (record_rows started all rows).1 ≡ last_at id all.1
unfolding record_rows
last-record_rows id started all [] h = refl
last-record_rows id started all (row ∷ rest) h =
    last-record_rows id started (record_sample started all row row.vps.last_sample) rest h.1
    ∙ last-record_sample id started all row row.vps.last_sample h.0
