-- ===== src/Agent/Telemetry/Cleared.antt =====
-- Samples without some of their collections.
use hope.Base.{◌≡◌, refl, sym, ap, Bool, true, false, List, [], ◌∷◌}
use hope.Protocol.Types.{Metrics}
use hope.Agent.Telemetry.Bound.{
  Collection, containers, services, monitors, temperatures, disk_devices, pools, gpus,
  network_interfaces, filesystems, is_absent, clear,
}

-- The sample after the given collections are gone.
abbrev pub clear_all : List Collection → Metrics → Metrics
clear_all [] m = m
clear_all (c ∷ cs) m = clear_all cs (clear c m)

abbrev is_empty_list : {A : Type 0} → List A → Bool
is_empty_list [] = true
is_empty_list (x ∷ xs) = false

none_left : {A : Type 0} (xs : List A) → is_empty_list xs ≡ true → xs ≡ []
none_left [] h = refl
none_left (x ∷ xs) h = cc

-- An absent collection is empty already.
pub clear_absent : (c : Collection) (m : Metrics) → is_absent c m ≡ true → clear c m ≡ m
unfolding clear is_absent
clear_absent containers m h =
    ap (λ xs. record m { containers = xs }) (sym (none_left m.containers h))
clear_absent services m h = ap (λ xs. record m { services = xs }) (sym (none_left m.services h))
clear_absent monitors m h = ap (λ xs. record m { monitors = xs }) (sym (none_left m.monitors h))
clear_absent temperatures m h =
    ap (λ xs. record m { temperatures = xs }) (sym (none_left m.temperatures h))
clear_absent disk_devices m h = ap (λ xs. record m { disk_io = xs }) (sym (none_left m.disk_io h))
clear_absent pools m h = ap (λ xs. record m { pools = xs }) (sym (none_left m.pools h))
clear_absent gpus m h = ap (λ xs. record m { gpus = xs }) (sym (none_left m.gpus h))
clear_absent network_interfaces m h =
    ap (λ xs. record m { network_interfaces = xs }) (sym (none_left m.network_interfaces h))
clear_absent filesystems m h = ap (λ xs. record m { disks = xs }) (sym (none_left m.disks h))
