-- ===== src/Server/Rollout/Single.antt =====
-- At most one automatic update is under way.
use native.Mathlib.Nat.{le_trans}
use hope.Base.{
  ℕ, ◌≤◌, ◌≡◌, refl, sym, ap, ◌∙◌, inl, inr, String, Bool, true, false, Option, none, some, List,
  [], ◌∷◌, arith, length, filter, any, find, F64, str_eq, str_eq_iff, Bool-cases, Option-cases,
  or_default, any-sort_by, find-none, if_both,
}
use hope.Protocol.Types.{Host}
use hope.Server.Database.{Database, put_host, hosts_by_name, set_meta}
use hope.Server.Rollout.{
  FloatText, in_flight, failed_host, begin_release, queue_host, ask_found, ask_canary, with_row,
  with_canary, recover, choose_canary, queue_found, choose_next, choose, expire, expire_found,
  advance_rollout, schedule,
}
use hope.Server.Updates.{clear_request, set_update_request}

-- The identity is the primary key of the table.
abbrev pub IsKeyed : List Host → Type 0
IsKeyed hosts = (id : String) → length (filter (λ h. str_eq h.id id) hosts) ≤ 1

-- The automatic requests that are under way.
abbrev pub flights : F64 → Database → ℕ
flights at db = length (filter (in_flight at) db.hosts)

module _ (p : Host → Bool) where
  -- A row that the test does not pass adds nothing.
  put_host-less :
      (h : Host) (hs : List Host)
      → p h ≡ false
      → length (filter p (put_host h hs)) ≤ length (filter p hs)
  unfolding put_host
  put_host-less h [] e = omega arith
  put_host-less h (k ∷ ks) e = ground (arith, put_host-less h ks)

  -- Where no row passes the test, a put row passes it as often as its identity stands there.
  put_host-fresh :
      (h : Host) (hs : List Host)
      → any p hs ≡ false
      → length (filter p (put_host h hs)) ≤ length (filter (λ k. str_eq k.id h.id) hs)
  unfolding put_host
  put_host-fresh h [] e = omega arith
  put_host-fresh h (k ∷ ks) e = ground (arith, put_host-fresh h ks)

none_pass : (p : Host → Bool) (hs : List Host) → any p hs ≡ false → length (filter p hs) ≤ 1
none_pass p [] e = omega arith
none_pass p (k ∷ ks) e = ground (arith, none_pass p ks)

any_by_name : (p : Host → Bool) (db : Database) → any p (hosts_by_name db) ≡ any p db.hosts
unfolding hosts_by_name
any_by_name p db = any-sort_by p _ db.hosts

-- The rows after a statement on one of them carry the identities from before.
put_host-IsKeyed :
    (h : Host) (hs : List Host) (id : String)
    → length (filter (λ k. str_eq k.id id) (put_host h hs))
      ≡ length (filter (λ k. str_eq k.id id) hs)
unfolding put_host
put_host-IsKeyed h [] id = refl
put_host-IsKeyed h (k ∷ ks) id = elim (Bool-cases (str_eq k.id h.id)) [
  | inl same ↦
      let equal = ap (λ t. str_eq t id) ((str_eq_iff k.id h.id).0 same) in
      ground (arith, same, equal, put_host-IsKeyed h ks id)
  | inr other ↦ ground (arith, other, put_host-IsKeyed h ks id)
]

put-IsKeyed : (h : Host) (hs : List Host) → IsKeyed hs → IsKeyed (put_host h hs)
put-IsKeyed h hs keyed id = rw (put_host-IsKeyed h hs id) (keyed id)

-- At most one automatic request is under way, and each identity stands once.
pub record IsSingle (at : F64) (db : Database) : Type 0 where
  pub keyed : IsKeyed db.hosts
  pub few : flights at db ≤ 1

-- No automatic request is under way, and each identity stands once.
record IsFree (at : F64) (db : Database) : Type 0 where
  keyed : IsKeyed db.hosts
  idle : any (in_flight at) db.hosts ≡ false

IsFree-by_name :
    (at : F64) (db : Database)
    → IsKeyed db.hosts
    → any (in_flight at) (hosts_by_name db) ≡ false
    → IsFree at db
IsFree-by_name at db keyed idle = record {
  keyed = keyed;
  idle = sym (any_by_name (in_flight at) db) ∙ idle;
}

IsFree-IsSingle : (at : F64) (db : Database) → IsFree at db → IsSingle at db
IsFree-IsSingle at db free = record {
  keyed = free.keyed;
  few = none_pass (in_flight at) db.hosts free.idle;
}

-- Entries of the metadata do not matter.
set_meta-IsSingle :
    (at : F64) (key value : String) (db : Database)
    → IsSingle at db
    → IsSingle at (set_meta key value db)
unfolding set_meta
set_meta-IsSingle at key value db s = record { keyed = s.keyed; few = s.few }

set_meta-IsFree :
    (at : F64) (key value : String) (db : Database)
    → IsFree at db
    → IsFree at (set_meta key value db)
unfolding set_meta
set_meta-IsFree at key value db s = record { keyed = s.keyed; idle = s.idle }

begin_release-IsSingle :
    (at : F64) (release_id : String) (db : Database)
    → IsSingle at db
    → IsSingle at (begin_release release_id db)
unfolding begin_release
begin_release-IsSingle at release_id db s = if_both (IsSingle at) _ s (
    set_meta-IsSingle at _ _ _ (
      set_meta-IsSingle at _ _ _
        (set_meta-IsSingle at _ _ _ (set_meta-IsSingle at _ _ _ (set_meta-IsSingle at _ _ db s)))))

-- A failed host has no request.
failed_lands : (at : F64) (failed : String) (h : Host) → in_flight at (failed_host failed h) ≡ false
unfolding in_flight failed_host clear_request
failed_lands at failed h = refl

module _ (text : FloatText) (release_id release : String) (at : F64) where
  queue_host-IsSingle :
      (h : Host) (db : Database)
      → IsFree at db
      → IsSingle at (queue_host text release_id release at h db)
  unfolding queue_host set_meta set_update_request
  queue_host-IsSingle h db free =
      let asked = set_update_request release_id release "automatic" at h in
      record {
        keyed = put-IsKeyed asked db.hosts free.keyed;
        few = le_trans (put_host-fresh (in_flight at) asked db.hosts free.idle) (free.keyed h.id);
      }

  ask_found-IsSingle :
      (found : Option Host) (db : Database)
      → IsFree at db
      → IsSingle at (ask_found text release_id release at found db)
  unfolding ask_found
  ask_found-IsSingle none db free = IsFree-IsSingle at db free
  ask_found-IsSingle (some h) db free = set_meta-IsSingle at _ _ _ (queue_host-IsSingle h db free)

  ask_canary-IsSingle :
      (name : String) (db : Database)
      → IsFree at db
      → IsSingle at (ask_canary text release_id release at name db)
  unfolding ask_canary
  ask_canary-IsSingle name db free = ask_found-IsSingle _ db free

  with_row-IsSingle :
      (found : Option Host) (db : Database)
      → IsFree at db
      → IsSingle at (with_row text release_id release at found db)
  unfolding with_row
  with_row-IsSingle none db free = ask_canary-IsSingle _ db free
  with_row-IsSingle (some h) db free =
      let passed =
        set_meta-IsSingle at _ _ _ (set_meta-IsSingle at _ _ db (IsFree-IsSingle at db free)) in
      if_both (IsSingle at) _ passed (
        if_both (IsSingle at) _ (ask_canary-IsSingle "" _ (set_meta-IsFree at _ _ db free))
          (ask_canary-IsSingle _ db free))

  recover-IsSingle :
      (h : Host) (db : Database)
      → IsSingle at db
      → IsSingle at (recover text release_id release at h db)
  unfolding recover
  recover-IsSingle h db s = if_both (IsSingle at) _ (set_meta-IsSingle at _ _ db s) s

  choose_canary-IsSingle :
      (db : Database) → IsSingle at db → IsSingle at (choose_canary text release_id release at db)
  unfolding choose_canary with_canary
  choose_canary-IsSingle db s = elim (Option-cases (find (in_flight at) (hosts_by_name db))) [
    | inl e ↦
        rw (e, choose_canary)
          (with_row-IsSingle _ db
            (IsFree-by_name at db s.keyed (find-none (in_flight at) (hosts_by_name db) e)))
    | inr (h, e) ↦ rw (e, choose_canary) (recover-IsSingle h db s)
  ]

  queue_found-IsSingle :
      (found : Option Host) (db : Database)
      → IsFree at db
      → IsSingle at (queue_found text release_id release at found db)
  unfolding queue_found
  queue_found-IsSingle none db free = IsFree-IsSingle at db free
  queue_found-IsSingle (some h) db free = queue_host-IsSingle h db free

  choose_next-IsSingle :
      (db : Database) → IsSingle at db → IsSingle at (choose_next text release_id release at db)
  unfolding choose_next
  choose_next-IsSingle db s = elim (Bool-cases (any (in_flight at) (hosts_by_name db))) [
    | inl busy ↦ rw busy s
    | inr idle ↦ rw idle (queue_found-IsSingle _ db (IsFree-by_name at db s.keyed idle))
  ]

  choose-IsSingle :
      (passed : Bool) (db : Database)
      → IsSingle at db
      → IsSingle at (choose text release_id release at passed db)
  unfolding choose
  choose-IsSingle false db s = choose_canary-IsSingle db s
  choose-IsSingle true db s = choose_next-IsSingle db s

  expire_found-IsSingle :
      (found : Option Host) (db : Database)
      → IsSingle at db
      → IsSingle at (expire_found text release_id release at found db)
  unfolding expire_found expire
  expire_found-IsSingle none db s = choose-IsSingle _ db s
  expire_found-IsSingle (some h) db s =
      let expired_release = or_default release_id h.update_target_release_id in
      let failed = failed_host expired_release h in
      let cleared : IsSingle at (record db { hosts = put_host failed db.hosts }) = record {
        keyed = put-IsKeyed failed db.hosts s.keyed;
        few =
            le_trans
              (put_host-less (in_flight at) failed db.hosts (failed_lands at expired_release h))
              s.few;
      } in
      if_both (IsSingle at) _ (set_meta-IsSingle at _ _ _ cleared) (choose-IsSingle _ _ cleared)

-- A round of the schedule keeps at most one automatic update under way, and each identity once in
-- the table, where both held before it.
pub schedule-IsSingle :
    (text : FloatText) (offered : Option (String × String)) (at : F64) (db : Database)
    → IsSingle at db
    → IsSingle at (schedule text offered at db)
unfolding schedule advance_rollout
schedule-IsSingle text none at db s = s
schedule-IsSingle text (some (release_id, release)) at db s =
    let begun = begin_release-IsSingle at release_id db s in
    if_both (IsSingle at) _ s
      (if_both (IsSingle at) _ begun (expire_found-IsSingle text release_id release at _ _ begun))
