-- ===== src/Server/Commands.antt =====
-- hope-server/src/agents.rs: the commands that the console shows and that a job over SSH sends. A
-- text is the list of its characters.
pub mod Words
use hope.Base.{
  ℕ, Bool, true, false, not, ◌&&◌, ◌||◌, Option, none, some, List, [], ◌∷◌, ◌++◌, all, any, leb,
  ◌==◌, codes, is_digit, if◌then◌else◌,
}

-- `replace('\'', "'\"'\"'")`
abbrev pub escaped : List ℕ → List ℕ
escaped [] = []
escaped (c ∷ cs) =
    let rest = escaped cs in if c == 0x27 then 0x27 ∷ 0x22 ∷ 0x27 ∷ 0x22 ∷ 0x27 ∷ rest else c ∷ rest

unfoldable pub shell_quote : List ℕ → List ℕ
shell_quote value = 0x27 ∷ (escaped value ++ (0x27 ∷ []))

-- The bytes that need no quotes.
unfoldable pub is_word_byte : ℕ → Bool
unfolding is_digit
is_word_byte c =
    is_digit c
    || (leb 0x41 c && leb c 0x5a)
    || (leb 0x61 c && leb c 0x7a)
    || any (λ b. b == c) (codes "._~:/%+=,@-")

abbrev no_text : List ℕ → Bool
no_text [] = true
no_text (c ∷ cs) = false

unfoldable pub shell_word : List ℕ → List ℕ
unfolding shell_quote is_word_byte
shell_word value =
    if not (no_text value) && all is_word_byte value then value else shell_quote value

-- An option of curl or the installer, if a certificate is set.
abbrev with_path : List ℕ → (List ℕ → List ℕ) → Option (List ℕ) → List ℕ
with_path option quote none = []
with_path option quote (some path) = option ++ quote path

module _ (server_url : List ℕ) (enrollment_ca : Option (List ℕ)) where
  unfoldable pub starter_command : List ℕ → List ℕ → List ℕ
  unfolding shell_word
  starter_command environment argument =
      codes "curl -fsS"
      ++ with_path (codes " --cacert ") shell_word enrollment_ca
      ++ codes " "
      ++ shell_word (server_url ++ codes "/install")
      ++ codes " | "
      ++ environment
      ++ codes "sh -s -- "
      ++ shell_word argument

  unfoldable pub uninstall_command : List ℕ
  unfolding shell_quote
  uninstall_command =
      codes
        "( umask 077; installer=$(mktemp) || exit 1; trap 'rm -f \"$installer\"' EXIT; curl -q --fail --silent --show-error --location --max-time 30 --proto '=https' --proto-redir '=https'"
      ++ with_path (codes " --cacert ") shell_quote enrollment_ca
      ++ codes " "
      ++ shell_quote (server_url ++ codes "/agent/uninstall")
      ++ codes " -o \"$installer\" && sh \"$installer\" uninstall )"

  unfoldable pub upgrade_command : List ℕ
  unfolding starter_command
  upgrade_command = starter_command [] (codes "upgrade")

  abbrev flag : Bool → List ℕ → List ℕ
  flag b text = if b then text else []

  unfoldable pub install_command_for : List ℕ → Bool → Bool → List ℕ
  unfolding shell_quote
  install_command_for token reset persistent =
      codes
        "( umask 077; installer=$(mktemp) || exit 1; trap 'rm -f \"$installer\"' EXIT; curl --fail --silent --show-error --location --max-time 30 --proto '=https' --proto-redir '=https'"
      ++ with_path (codes " --cacert ") shell_quote enrollment_ca
      ++ codes " "
      ++ shell_quote server_url
      ++ codes "/agent/install -o \"$installer\" && HOPE_SERVER="
      ++ shell_quote server_url
      ++ codes " HOPE_ENROLLMENT_TOKEN="
      ++ shell_quote token
      ++ with_path (codes " HOPE_CA_CERT=") shell_quote enrollment_ca
      ++ flag reset (codes " HOPE_RESET_CREDENTIAL=1")
      ++ flag persistent (codes " HOPE_REQUIRE_PERSISTENT_SERVICE=1")
      ++ codes " sh \"$installer\" )"
