-- ===== src/Server/Uptime/Kept.antt =====
-- A change of settings during the checks is not undone by them.
use Prim.Native.String.{◌++◌}
use mathlib.Core.List.{Memᴰ}
use mathlib.Core.List.Memᴰ
use mathlib.Core.List.{◌++◌ as ◌+++◌}
use hope.Base.{
  ℕ, String, Bool, true, Option, some, List, [], ◌∷◌, ◌≡◌, refl, sym, ap, ◌∙◌, subst, inl, inr, map,
  filter, F64, IpAddr, some_eq, Bool-cases, Option-cases,
}
use hope.Protocol.Types.{Host}
use hope.Server.Database.{Database}
use hope.Server.Notify.{Problem}
use hope.Server.Notify.Rows.{IsOrder, mem-filter}
use hope.Server.Uptime.{Scans, evaluate}
use hope.Server.Uptime.Checks.{
  Failures, FailuresJson, Check, checks, count_of, put_count, count_checks, kept_settings,
  counters_of, settle_host, settle_hosts, problems,
}

mem-map {ℓ κ} :
    {A : Type ℓ} {B : Type κ} (f : A → B) (xs : List A) {y : B}
    → Memᴰ y (map f xs)
    → (x : A) × Memᴰ x xs × (y ≡ f x)
mem-map f [] m = absurd (Memᴰ.not-nil m)
mem-map f (x ∷ xs) m = elim (Memᴰ.cases_cons m) [
  | inl own ↦ (x, Memᴰ.head refl, own)
  | inr later ↦ let (z, at, same) = mem-map f xs later in (z, Memᴰ.tail at, same)
]

count_checks-owner :
    (host : Host) (cs : List Check) (failures : Failures) {e : Problem × String}
    → Memᴰ e (count_checks host cs failures).1
    → e.1 ≡ host.id
unfolding count_checks
count_checks-owner host [] failures m = absurd (Memᴰ.not-nil m)
count_checks-owner host (c ∷ cs) failures m =
    let next = evaluate (count_of c.name failures) c.down in
    elim (Bool-cases next.1) [
      | inr up ↦ count_checks-owner host cs (put_count c.name next.0 failures) (rw up at m)
      | inl down ↦ elim (Memᴰ.cases_cons (rw down at m)) [
        | inl own ↦ ap (λ e. e.1) own
        | inr later ↦ count_checks-owner host cs (put_count c.name next.0 failures) later
      ]
    ]

module _ (json : FailuresJson) (current : String → Option Host) where
  settle_host-kept :
      (x : Host × List Check) (db : Database) (ps : List (Problem × String)) {e : Problem × String}
      → (settle_host json current x db).1 ≡ some ps
      → Memᴰ e ps
      → (e.1 ≡ x.0.id) × (kept_settings x.0 (current x.0.id) ≡ true)
  unfolding settle_host
  settle_host-kept (host, cs) db ps {e} h m =
      elim (Bool-cases (kept_settings host (current host.id))) [
        | inr edited ↦
            let none_found : [] ≡ ps = some_eq (rw edited at h) in
            absurd (Memᴰ.not-nil (subst (Memᴰ e) (sym none_found) m))
        | inl kept ↦
            elim (Option-cases (counters_of json current (db.meta ("uptime:" ++ host.id)))) [
              | inl unreadable ↦ cc (rw (kept, unreadable) at h)
              | inr (failures, read) ↦
                  let found = some_eq (rw (kept, read) at h) in
                  (count_checks-owner host cs failures (subst (Memᴰ e) (sym found) m), kept)
            ]
      ]

  settle_hosts-kept :
      (xs : List (Host × List Check)) (db : Database) (ps : List (Problem × String))
      {e : Problem × String}
      → (settle_hosts json current xs db).1 ≡ some ps
      → Memᴰ e ps
      → (x : Host × List Check) × Memᴰ x xs
        × (e.1 ≡ x.0.id)
        × (kept_settings x.0 (current x.0.id) ≡ true)
  unfolding settle_hosts
  settle_hosts-kept [] db ps {e} h m = absurd (Memᴰ.not-nil (subst (Memᴰ e) (sym (some_eq h)) m))
  settle_hosts-kept (x ∷ xs) db ps {e} h m =
      let first = settle_host json current x db in
      elim (Option-cases first.1) [
        | inl stopped ↦ cc (rw (stopped, settle_hosts) at h)
        | inr (qs, found) ↦ elim (Option-cases (settle_hosts json current xs first.0).1) [
          | inl stopped ↦ cc (rw (found, stopped, settle_hosts) at h)
          | inr (rs, rest) ↦
              let joined : qs +++ rs ≡ ps = some_eq (rw (found, rest, settle_hosts) at h) in
              elim (Memᴰ.append_cases qs (subst (Memᴰ e) (sym joined) m)) [
                | inl here ↦
                    let (owner, kept) = settle_host-kept x db qs found here in
                    (x, Memᴰ.head refl, owner, kept)
                | inr later ↦
                    let (y, at, owner, kept) = settle_hosts-kept xs first.0 rs rest later in
                    (y, Memᴰ.tail at, owner, kept)
              ]
        ]
      ]

-- A problem that the uptime checks find is one of a host that was watched when they began, and
-- whose settings are still the same when the problem is counted, whatever was edited in between.
pub problems-kept :
    (port_up : List IpAddr → ℕ → Bool) (json : FailuresJson) (port_order : List Check → List Check)
    (host_order : List (Host × List Check) → List (Host × List Check)) (later : Database → Database)
    (current : Database → String → Option Host) (hosts : List Host) (now : F64) (scans : Scans)
    (db : Database) (found : List (Problem × String)) (e : Problem × String)
    → IsOrder host_order
    → (problems port_up json port_order host_order later current hosts now scans db).1 ≡ some found
    → Memᴰ e found
    → (host : Host) × Memᴰ host hosts
      × (e.1 ≡ host.id)
      × (host.uptime.enabled ≡ true)
      × (kept_settings host (current (later db) host.id) ≡ true)
unfolding problems
problems-kept port_up json port_order host_order later current hosts now scans db found e order h
      m =
    let watched = filter (λ (k : Host). k.uptime.enabled) hosts in
    let listed = map (λ k. (k, checks port_up port_order now scans k)) watched in
    let (x, at, owner, kept) =
      settle_hosts-kept json (current (later db)) (host_order listed) (later db) found h m in
    let (host, there, same) =
      mem-map (λ k. (k, checks port_up port_order now scans k)) watched (order.old listed x at) in
    let (known, enabled) = mem-filter (λ (k : Host). k.uptime.enabled) hosts there in
    let is : x.0 ≡ host = ap (λ y. y.0) same in
    (
      host,
      known,
      owner ∙ ap (λ (k : Host). k.id) is,
      enabled,
      subst (λ (k : Host). kept_settings k (current (later db) k.id) ≡ true) is kept,
    )
