-- ===== src/Protocol/Storage.antt =====
-- hope-protocol/src/lib.rs, `Disk::is_guest_storage`: mounts that are a guest's root filesystem.
use hope.Base.{
  ℕ, Bool, false, ◌&&◌, ◌||◌, Option, none, some, List, [], ◌∷◌, str_eq, codes, is_digit, all,
  length, ◌==◌, starts_with, ends_with, strip_prefix, split_on, if◌then◌else◌,
}
use hope.Protocol.Types.{Disk}

-- `trim_end_matches('/')`
abbrev drop_slash : ℕ → List ℕ → List ℕ
drop_slash c [] = if c == b'/' then [] else c ∷ []
drop_slash c (d ∷ ds) = c ∷ d ∷ ds

abbrev trim_slashes : List ℕ → List ℕ
trim_slashes [] = []
trim_slashes (c ∷ cs) = drop_slash c (trim_slashes cs)

abbrev last_part : List (List ℕ) → List ℕ
last_part [] = []
last_part (p ∷ []) = p
last_part (p ∷ q ∷ ps) = last_part (q ∷ ps)

abbrev is_numeric : List ℕ → Bool
is_numeric [] = false
is_numeric (c ∷ cs) = all is_digit (c ∷ cs)

abbrev is_guest_name : List (List ℕ) → Bool
is_guest_name (guest ∷ word ∷ disk ∷ []) =
    is_numeric guest && (starts_with (codes "disk") word && (length word == 4)) && is_numeric disk
is_guest_name _ = false

abbrev is_guest_leaf : Option (List ℕ) → Option (List ℕ) → Bool
is_guest_leaf (some rest) base = is_guest_name (split_on b'-' rest)
is_guest_leaf none (some rest) = is_guest_name (split_on b'-' rest)
is_guest_leaf none none = false

unfoldable pub guest_volume : List ℕ → Bool
unfolding is_digit starts_with strip_prefix split_on
guest_volume path =
    let leaf = last_part (split_on b'/' (trim_slashes path)) in
    is_guest_leaf (strip_prefix (codes "subvol-") leaf) (strip_prefix (codes "basevol-") leaf)

unfoldable pub is_guest_storage : Disk → Bool
unfolding guest_volume ends_with starts_with
is_guest_storage disk =
    let mount = codes disk.mount in
    if str_eq disk.mount "/"
    then false
    else guest_volume mount
      || guest_volume (codes disk.name)
      || (starts_with (codes "/var/lib/lxc/") mount
          && ends_with (codes "/rootfs") (trim_slashes mount))
