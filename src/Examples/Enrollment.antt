-- ===== src/Examples/Enrollment.antt =====
-- Enrollments with one token.
use hope.Base.{
  List, ◌∷◌, ◌≡◌, refl, String, true, false, none, some, [], arith, float, f64_le, f64_lt,
  is_finite, is_control, is_hex_digit, byte_len, utf8_width, str_eq, if◌then◌else◌,
}
use hope.Examples.Reports.{quiet, tables}
use hope.Protocol.Types.{EnrollmentRequest, Inventory}
use hope.Protocol.Validation.Inventory.{inventory, inventory_ok, interface_ok}
use hope.Protocol.Validation.Values.{valid, collectors, text, number, disks, gpus, distinct_ids}
use hope.Server.Database.{Database, find_agent}
use hope.Server.Enrollment.{
  enroll_inner, enroll_checked, enroll_known, add_agent, request_ok, has_capacity, active, is_taken,
  is_bound,
}
use hope.Server.Tokens.{Token, Registry, fits_new}
use hope.Server.Enrollment.Capacity.{IsBounded}
use hope.Server.Enrollment.Handler.{Desk, enroll, enroll-IsBounded}
use hope.Server.Enrollment.Used.{is_ok}
use hope.Server.Enrollment.Once.{
  Event, issue, enroll as enrolls, other, happen_all, enroll_inner-once,
}

abbrev bare : Inventory
bare = record {
  hostname = "box";
  os = "Linux";
  architecture = "x86_64";
  cpu_model = "";
  cpu_cores = 4;
  memory_total_bytes = float 0;
  interfaces = [];
  disks = [];
  gpus = [];
  collectors = [];
}

abbrev pub asking : String → EnrollmentRequest
asking id = record {
  schema_version = 1;
  token = "token";
  agent_id = id;
  credential = "0123456789abcdef0123456789abcdef0123456789abcdef0123456789abcdef";
  inventory = bare;
}

abbrev fresh : Token
fresh = record { expires_at = float 1000; used_at = none; agent_id = none; reset_agent_id = none }

abbrev empty_tables : Database
empty_tables = record (tables false) { agents = []; hosts = [] }

abbrev empty : Registry
empty = record {
  db = empty_tables;
  tokens = λ key. if str_eq key "token" then some fresh else none;
}

IsBounded-empty : IsBounded empty.db.agents
unfolding active
IsBounded-empty = record { keyed = λ id. omega arith; capped = omega arith }

abbrev desk : Desk
desk = record { enroll_limit = []; registry = empty }

enroll-IsBounded_example :
    IsBounded
      (enroll quiet "client" none
        (asking "a")
        "new"
        (float 100)
        (float 100)
        (float 101)
        desk).0.registry.db.agents
enroll-IsBounded_example =
    enroll-IsBounded quiet "client" none (asking "a") "new" (float 100) (float 100) (float 101) desk
      IsBounded-empty

test_request : request_ok quiet.is_uuid (asking "a") ≡ true
unfolding request_ok is_hex_digit byte_len utf8_width
test_request = refl

test_inventory : inventory (asking "a").inventory ≡ valid
unfolding inventory inventory_ok interface_ok text number is_finite f64_le f64_lt disks gpus
    collectors byte_len is_control distinct_ids
test_inventory = refl

test_checked : is_ok (enroll_checked quiet (float 100) (asking "a") "new" none valid empty).1 ≡ true
unfolding enroll_checked enroll_known add_agent has_capacity active find_agent fits_new is_taken
    is_bound f64_lt
test_checked = refl

test_enrolled : is_ok (enroll_inner quiet (float 100) (asking "a") "new" none empty).1 ≡ true
unfolding enroll_inner
test_enrolled = rw (test_request, test_inventory) test_checked

abbrev then_revoked : List Event
then_revoked =
    issue "second" none (float 150) (float 150)
    ∷ enrolls (record (asking "c") { token = "second" }) "third" none (float 160)
    ∷ other (λ db. record db { agents = [] })
    ∷ []

enroll_inner-once_example :
    is_ok
      (enroll_inner quiet (float 200) (asking "b") "other" none (
        happen_all quiet then_revoked
          (enroll_inner quiet (float 100) (asking "a") "new" none empty).0)).1
    ≡ false
enroll_inner-once_example =
    enroll_inner-once quiet (float 100) (float 200) (asking "a") (asking "b") "new" "other" none
      none then_revoked empty test_enrolled refl refl refl
