-- ===== src/Examples/Commands.antt =====
-- Words of the commands.
use hope.Base.{◌≡◌, refl, some, [], ◌++◌, codes, is_digit}
use hope.Server.Commands.{shell_quote, is_word_byte, shell_word, starter_command}
use hope.Server.Commands.Words.{read_first, shell_word-read}

test_quote : shell_quote (codes "it's") ≡ codes "'it'\"'\"'s'"
unfolding shell_quote
test_quote = refl

test_starter :
    starter_command (codes "https://hope.lan") (some (codes "/etc/my ca.pem")) [] (codes "tok")
    ≡ codes "curl -fsS --cacert '/etc/my ca.pem' https://hope.lan/install | sh -s -- tok"
unfolding starter_command shell_word shell_quote is_word_byte is_digit
test_starter = refl

shell_word-read_example :
    (read_first (shell_quote (codes "~a; reboot") ++ codes " -o x")
      ≡ some (codes "~a; reboot", codes " -o x"))
    × (read_first (shell_word (codes "~a; reboot") ++ codes " -o x")
        ≡ some (codes "~a; reboot", codes " -o x"))
unfolding is_word_byte is_digit
shell_word-read_example = shell_word-read (codes "~a; reboot") (codes " -o x") refl
