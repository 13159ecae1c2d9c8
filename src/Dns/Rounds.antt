-- ===== src/Dns/Rounds.antt =====
-- The rows of a server that a sequence of rounds of exordos_core/dns_sync/service.py leaves alone.
use exordos_core.Base.{
  ℕ, ◌+◌, inl, inr, leb, Bool, true, false, Option, List, [], ◌∷◌, filter, if◌then◌else◌,
  Bool-cases, Option-cases,
}
use exordos_core.Dns.{Domain, Database, EcoRecord}
use exordos_core.Dns.Server.{Server, IsServer}
use exordos_core.Dns.Calls.{mark_for}
use exordos_core.Dns.Domains.{fast_sync, full_sync_interval}
use exordos_core.Dns.Service.{
  Service, run_full, run_fast, run_sync, sync_all_domains, start_sync, ensure_realm_domain,
}
use exordos_core.Dns.Kept.{
  IsKept, IsKept-refl, IsKept-trans, mark_for-IsMark, full_sync_keeps, fast_sync_keeps,
}

-- What holds of both branches.
if_either : {A : Type 0} (P : A → Type 0) (b : Bool) (x y : A) → P x → P y → P (if b then x else y)
if_either P true x y f g = f
if_either P false x y f g = g

module _ {S : Type 0} (server : Server S) (order : List ℕ → List ℕ) (tag : ℕ) where
  -- A sequence of rounds, each with its clocks, its fresh uuids and the database as its users left it.
  unfoldable pub run_rounds : List (Database × ℕ × ℕ × ℕ × ℕ) → S × Service → S × Service
  run_rounds [] sv = sv
  run_rounds ((db, mono, wall, uuid, soa_uuid) ∷ rounds) (s, v) =
      let after = sync_all_domains server order mono wall uuid soa_uuid tag (db, s, v) in
      run_rounds rounds (after.1, after.2)

module _ {S : Type 0} (server : Server S) (row : S → (domain uuid : ℕ) → Option EcoRecord)
    (laws : IsServer server row) (tag : ℕ) where
  module _ (order : List ℕ → List ℕ) where
    run_full_keeps :
        (mono wall : ℕ) (db : Database) (domains : List Domain) (s : S) (v : Service)
        → IsKept row tag s (run_full server order mono wall tag db domains s v).0
    unfolding run_full
    run_full_keeps mono wall db [] s v = IsKept-refl server row laws tag s
    run_full_keeps mono wall db (d ∷ domains) s v = elim (Option-cases (server.list_domains s)) [
      | inl lost ↦ rw (lost, run_full) (IsKept-refl server row laws tag s)
      | inr (ecos, found) ↦
          rw (found, run_full)
            (full_sync_keeps server row laws tag order db mono ecos (d ∷ domains) (s, v.mirror))
    ]

    run_fast_keeps :
        (wall : ℕ) (db : Database) (s : S) (v : Service)
        → IsKept row tag s (run_fast server order wall tag db s v).0
    unfolding run_fast
    run_fast_keeps wall db s v = elim (Option-cases v.last_fast_sync_dt) [
      | inl never ↦ rw (never, run_fast) (IsKept-refl server row laws tag s)
      | inr (since, at_time) ↦
          elim (Option-cases (fast_sync server db since (mark_for v.mirror tag) s)) [
            | inl lost ↦
                rw (at_time, run_fast) (rw (lost, run_fast) (IsKept-refl server row laws tag s))
            | inr (s', done) ↦
                rw (at_time, run_fast)
                  (rw (done, run_fast)
                    (fast_sync_keeps server row laws tag db since (mark_for v.mirror tag) s s'
                      (mark_for-IsMark v.mirror tag) done))
          ]
    ]

    run_sync_keeps :
        (mono wall : ℕ) (db : Database) (s : S) (v : Service)
        → IsKept row tag s (run_sync server order mono wall tag db s v).0
    unfolding run_sync
    run_sync_keeps mono wall db s v =
        elim (Bool-cases (leb (v.last_full_sync_at + full_sync_interval) mono)) [
          | inl due ↦ rw due (
              run_full_keeps mono wall db (filter (λ (d : Domain). d.sync_to_ecosystem) db.domains)
                s v)
          | inr later ↦ rw later (run_fast_keeps wall db s v)
        ]

    start_sync_keeps :
        (mono wall : ℕ) (s : S) (v : Service) (start : Bool × Database)
        → IsKept row tag s (start_sync server order mono wall tag s v start).1
    unfolding start_sync
    start_sync_keeps mono wall s v (true, db) =
        run_sync_keeps mono wall db s (record v { initialized = true })
    start_sync_keeps mono wall s v (false, db) = IsKept-refl server row laws tag s

    round_keeps :
        (mono wall uuid soa_uuid : ℕ) (db : Database) (s : S) (v : Service)
        → IsKept row tag s (sync_all_domains server order mono wall uuid soa_uuid tag (db, s, v)).1
    unfolding sync_all_domains
    round_keeps mono wall uuid soa_uuid db s v =
        if_either (λ (t : Database × S × Service). IsKept row tag s t.1) v.initialized _ _
          (run_sync_keeps mono wall db s v)
          (start_sync_keeps mono wall s v (ensure_realm_domain server wall uuid soa_uuid db s))

    -- At a server that writes at most the row that a request names, whatever the rounds do, which requests
    -- fail and what the local database holds: a row whose marks are not the mark of this realm alone is
    -- not changed.
    pub run_rounds-IsKept :
        (rounds : List (Database × ℕ × ℕ × ℕ × ℕ)) (s : S) (v : Service)
        → IsKept row tag s (run_rounds server order tag rounds (s, v)).0
    unfolding run_rounds
    run_rounds-IsKept [] s v = IsKept-refl server row laws tag s
    run_rounds-IsKept ((db, mono, wall, uuid, soa_uuid) ∷ rounds) s v =
        let after = sync_all_domains server order mono wall uuid soa_uuid tag (db, s, v) in
        IsKept-trans server row laws tag s after.1 _ (round_keeps mono wall uuid soa_uuid db s v)
          (run_rounds-IsKept rounds after.1 after.2)
