-- ===== src/Protocol/Validation/Values.antt =====
-- The tests that the parts of validation.rs share, and those on filesystems, GPUs and collectors.
use hope.Base.{
  ℕ, ◌-◌, ◌*◌, ◌^◌, String, Bool, true, false, not, ◌&&◌, ◌||◌, Option, none, some, List, [], ◌∷◌,
  ◌++◌, F64, finite, negsuc, float, unit, is_finite, f64_le, str_eq, leb, ◌==◌, length, all, any,
  codes, byte_len, is_control, is_hex_digit, split_on, parse_ip,
}
use hope.Protocol.Types.{Disk, Gpu, CollectorStatus}

-- `Result<(), &str>`.
pub data Verdict : Type 0 where
  valid : Verdict
  invalid : String → Verdict

infixl 5 ◌then_check◌
-- `first?; second`.
abbrev pub ◌then_check◌ : Verdict → Verdict → Verdict
valid then_check v = v
(invalid reason) then_check v = invalid reason

abbrev pub require : Bool → String → Verdict
require true reason = valid
require false reason = invalid reason

-- `Option::is_none_or`.
abbrev pub is_none_or {ℓ} : {A : Type ℓ} → (A → Bool) → Option A → Bool
is_none_or p none = true
is_none_or p (some a) = p a

abbrev pub unwrap_or {ℓ} : {A : Type ℓ} → Option A → A → A
unwrap_or none d = d
unwrap_or (some a) d = a

-- `String::is_empty`.
abbrev pub is_empty : String → Bool
is_empty String.[] = true
is_empty (String.◌∷◌ c s) = false

-- Powers of ten as floats.
abbrev pub ten_to : ℕ → F64
ten_to n = float (10 ^ n)

unfoldable pub text : String → ℕ → Bool
text value maximum = leb (byte_len (codes value)) maximum && not (any is_control (codes value))

unfoldable pub number : F64 → F64 → Bool
number value maximum = is_finite value && f64_le (float 0) value && f64_le value maximum

unfoldable pub optional : Option F64 → F64 → Bool
optional value maximum = is_none_or (λ v. number v maximum) value

-- The range of a temperature in degrees.
unfoldable pub celsius_ok : F64 → Bool
celsius_ok v = is_finite v && f64_le (finite (negsuc (100 * unit - 1))) v && f64_le v (float 300)

unfoldable pub disk_ok : Disk → Bool
disk_ok disk =
    text disk.name 255
    && text disk.mount 4096
    && text disk.filesystem 128
    && number disk.total_bytes (ten_to 18)
    && number disk.available_bytes disk.total_bytes

unfoldable pub disks : List Disk → Bool
disks values = leb (length values) 128 && all disk_ok values

same_id : Option String → Option String → Bool
same_id none none = true
same_id (some a) (some b) = str_eq a b
same_id _ _ = false

-- No GPU that has an id shares it with one before it.
unfoldable pub distinct_ids : List Gpu → List Gpu → Bool
unfolding same_id
distinct_ids before [] = true
distinct_ids before (gpu ∷ rest) =
    elim gpu.id [ none ↦ true | some _ ↦ not (any (λ other. same_id other.id gpu.id) before) ]
    && distinct_ids (before ++ (gpu ∷ [])) rest

unfoldable pub gpu_ok : Gpu → Bool
gpu_ok gpu =
    is_none_or (λ id. not (is_empty id) && text id 255) gpu.id
    && text gpu.name 255
    && text gpu.vendor 128
    && optional gpu.utilization_percent (float 100)
    && optional gpu.memory_used_bytes (unwrap_or gpu.memory_total_bytes (ten_to 18))
    && optional gpu.memory_total_bytes (ten_to 18)
    && is_none_or celsius_ok gpu.temperature_celsius

unfoldable pub gpus : List Gpu → Bool
gpus values = leb (length values) 32 && distinct_ids [] values && all gpu_ok values

unfoldable pub collectors : List CollectorStatus → Verdict
collectors values =
    require
      (leb (length values) 64
        && all (λ c. text c.name 128 && is_none_or (λ d. text d 1024) c.detail) values)
      "Invalid collector availability"

-- A set of names that have been seen.
member : String → List String → Bool
member name [] = false
member name (n ∷ ns) = str_eq n name || member name ns

unfoldable pub unique_from : List String → List String → Bool
unfolding member
unique_from seen [] = true
unique_from seen (name ∷ rest) = not (member name seen) && unique_from (name ∷ seen) rest

unfoldable pub unique : List String → Bool
unique names = unique_from [] names

-- Six pairs of hexadecimal digits with colons between them.
unfoldable pub mac_ok : String → Bool
mac_ok mac =
    let parts = split_on b':' (codes mac) in
    (byte_len (codes mac) == 17)
    && (length parts == 6)
    && all (λ part. (byte_len part == 2) && all is_hex_digit part) parts

abbrev pub is_some : {A : Type 0} → Option A → Bool
is_some none = false
is_some (some a) = true

-- `a.parse::<std::net::IpAddr>().is_ok()`.
unfoldable pub ip_ok : String → Bool
ip_ok address = is_some (parse_ip address)
