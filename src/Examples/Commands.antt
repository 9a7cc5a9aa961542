-- ===== src/Examples/Commands.antt =====
-- Examples of the ASCII commands, with formats and scanners of one digit and a PLC with one variable.
use twincat_ads.Base.Int.{ℤ, pos, negsuc}
use twincat_ads.Ads.{AdsSymbolEntry}
use twincat_ads.DataType.{adst_uint8, adst_uint16, adst_bigtype}
use twincat_ads.DrvInfo.{strstr}
use twincat_ads.Examples.{a_plc, a_symbol, net_id}
use twincat_ads.Octet.Commands.Io.{write_octet, read_octet}
use twincat_ads.Octet.Commands.Line.{write_octet-HasRoom}
use twincat_ads.Octet.Commands.Zeros.{octet_handle_symbol-zeros}
use twincat_ads.Octet.Commands.{OctetEnv, answered, octet_handle_symbol}
use twincat_ads.Octet.Print.Halts.{octet_binary2ascii-Returned}
use twincat_ads.Octet.Print.Hangs.{octet_binary2ascii-unfinished}
use twincat_ads.Octet.Print.Points.{octet_binary2ascii, returned, unfinished}
use twincat_ads.Octet.Print.Room.{HasRoom}
use twincat_ads.Octet.Print.{Printf, printed, symbol_text}
use twincat_ads.Octet.Scan.Bounds.{octet_ascii2binary-Stays}
use twincat_ads.Octet.Scan.{
  Scanned, value, mismatch, end_of_text, SscanfValue, Scanning, number_size, octet_ascii2binary,
}
use twincat_ads.Octet.Split.RoundTrip.{joined, all_without, octet_create_argv_sepv-joined}
use twincat_ads.Octet.Split.{cut, octet_create_argv_sepv}
use twincat_ads.Octet.{OctetBuffer, ads_cmd_buffer_size, strlen}
use twincat_ads.Symbol.{zero_symbol, ads_get_symbol}
use twincat_ads.Upload.{codes}
use twincat_ads.Base.{
  ℕ, ◌+◌, ◌-◌, ◌≤◌, ◌<◌, ◌≡◌, refl, ◌⊎◌, false, true, List, [], ◌∷◌, Option, none, some, AsynStatus,
  asyn_success, length, drop, leb, ◌&&◌, if◌then◌else◌, arith,
}

abbrev digit_of : ℕ → List ℕ
digit_of n = (b'0' + n) ∷ []

abbrev digit_of_int : ℤ → List ℕ
digit_of_int (pos n) = digit_of n
digit_of_int (negsuc n) = b'-' ∷ []

abbrev digits : Printf
digits = record {
  print_d = digit_of_int;
  print_hhu = digit_of;
  print_prid64 = λ n. codes " PRId64";
  print_priu64 = λ n. codes " PRIu64";
  print_x = digit_of;
  print_f = digit_of;
  print_lf = digit_of;
  heap = λ i. 0;
}

abbrev scanned_digit : List ℕ → Scanned ℕ
scanned_digit [] = end_of_text
scanned_digit (c ∷ s) = if leb b'0' c && leb c b'9' then value (c - b'0') else mismatch

abbrev scanners : SscanfValue
scanners = record { scan_number = λ type. scanned_digit; scan_s = value }

abbrev nothing : ℕ → ℕ
nothing i = 0

abbrev clear : OctetBuffer
clear = record { buffer_size = ads_cmd_buffer_size; bytes_used = 0; buffer = nothing }

abbrev two_bytes : AdsSymbolEntry
two_bytes = record a_symbol { data_type = adst_uint8; size = 2 }

octet_create_argv_sepv-joined_example :
    (joined (drop 1 (octet_create_argv_sepv (codes "a?;b=1;"))) ≡ codes "a?;b=1;")
    × (all_without b';' (drop 1 (octet_create_argv_sepv (codes "a?;b=1;"))) ≡ true)
    × (length (octet_create_argv_sepv (codes "a?;b=1;")) ≤ 2 + length (codes "a?;b=1;"))
octet_create_argv_sepv-joined_example = octet_create_argv_sepv-joined (codes "a?;b=1;")

two_commands :
    octet_create_argv_sepv (codes "a?;b=1")
    ≡ (codes "a?;b=1", []) ∷ (codes "a?", codes ";") ∷ (codes "b=1", []) ∷ []
unfolding octet_create_argv_sepv
two_commands = refl

octet_binary2ascii-Returned_example :
    (e : ℕ) × (c : OctetBuffer) × (octet_binary2ascii digits false nothing ads_cmd_buffer_size
        two_bytes 3 clear
      ≡ returned e c)
octet_binary2ascii-Returned_example =
    octet_binary2ascii-Returned digits false nothing ads_cmd_buffer_size two_bytes clear
      (omega arith) (λ e. ground (arith, e))

-- A structure, of a type that is called S.
abbrev a_structure : AdsSymbolEntry
a_structure = record a_symbol {
  data_type = adst_bigtype;
  size = 24;
  buffer = codes "S";
  sym_data_type = some 0;
}

a_structure-named : symbol_text a_structure (some 0) ≡ some (codes "S")
unfolding symbol_text
a_structure-named = refl

a_structure-other : strstr (codes "DUT_AxisStatus_v0_01") (codes "S") ≡ none
unfolding strstr
a_structure-other = refl

octet_binary2ascii-unfinished_example :
    octet_binary2ascii digits false nothing ads_cmd_buffer_size a_structure 1000 clear ≡ unfinished
octet_binary2ascii-unfinished_example =
    octet_binary2ascii-unfinished digits false nothing ads_cmd_buffer_size a_structure (codes "S")
      clear 1000 refl a_structure-named a_structure-other (omega arith) refl

octet_ascii2binary-Stays_example :
    (q : Scanning) × (octet_ascii2binary scanners adst_uint16 ads_cmd_buffer_size 4
        (codes "1,2")
        0
        nothing
      ≡ some q)
    × ((j : ℕ) → ads_cmd_buffer_size ≤ j → q.binary j ≡ nothing j)
octet_ascii2binary-Stays_example =
    octet_ascii2binary-Stays scanners adst_uint16 ads_cmd_buffer_size (codes "1,2") nothing
      (λ e. ground (arith, e)) (omega arith) (omega arith)

abbrev an_octet_env : OctetEnv ℕ
an_octet_env = record {
  api = a_plc;
  remote_net_id = net_id;
  client = 30000;
  fmt = digits;
  values = scanners;
  commands = record { scan_port = λ s. some 851; scan_adr = λ s. none };
  text = λ s. "Main.a";
  error_value = λ e. 0x740;
  return_var_name = false;
  amsport_default = 851;
}

abc_split : (cut b'=' (codes "Main.a=abc")).1 ≡ some (codes "abc")
unfolding cut
abc_split = refl

abc_name : length (cut b'=' (codes "Main.a=abc")).0 < 255
unfolding cut
abc_name = omega arith

described : AdsSymbolEntry
described = record a_symbol { variable_name = some 0; sym_data_type = some 2; sym_comment = some 7 }

a_symbol-described :
    ads_get_symbol a_plc net_id 30000 851 "Main.a" zero_symbol 0 ≡ (asyn_success, 0, described, 1)
unfolding ads_get_symbol described
a_symbol-described = refl

uint16-number : number_size adst_uint16 ≡ some 2
unfolding number_size
uint16-number = refl

octet_handle_symbol-zeros_example :
    octet_handle_symbol an_octet_env (codes "Main.a=abc") 851 clear 0
    ≡ answered 0 (printed digits clear (codes "OK")) 2
unfolding described
octet_handle_symbol-zeros_example =
    octet_handle_symbol-zeros an_octet_env (codes "Main.a=abc") (codes "abc") 851 0 2 described
      clear 0 1 2 abc_split abc_name a_symbol-described uint16-number refl (omega arith) refl

clear-HasRoom : HasRoom ads_cmd_buffer_size clear
clear-HasRoom = record { sized = refl; room = omega arith }

-- What the driver has left in the output buffer, if it has returned.
unfoldable after_line : Option (AsynStatus × ℕ × OctetBuffer × ℕ) → OctetBuffer
after_line none = clear
after_line (some (status, n, b, w)) = b

abbrev bad_command : Option (AsynStatus × ℕ × OctetBuffer × ℕ)
bad_command = write_octet an_octet_env (codes "x\n") 2 clear 0

bad_command-returns : bad_command ≡ some (asyn_success, 2, after_line bad_command, 0)
unfolding write_octet after_line
bad_command-returns = refl

abbrev two : ℕ
two = 2

write_octet-HasRoom_example :
    HasRoom ads_cmd_buffer_size (after_line bad_command)
    × (((asyn_success ≡ asyn_success) × (two ≡ two)) ⊎ (two ≡ 0))
write_octet-HasRoom_example =
    write_octet-HasRoom an_octet_env ads_cmd_buffer_size (omega arith) (codes "x\n") 2 clear 0
      asyn_success 2 (after_line bad_command) 0 clear-HasRoom bad_command-returns

-- The answer is read with the line feed of the command.
bad_command-read :
    (read_octet false 100 (after_line bad_command)).value ≡ codes "Error: Bad command\n"
unfolding write_octet after_line read_octet strlen
bad_command-read = refl
