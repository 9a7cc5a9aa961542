-- ===== src/Octet/Commands.antt =====
-- adsApp/src/adsAsynPortDriver.cpp, the ASCII commands: octetAdsReadByGroupOffset,
-- octetAdsWriteByGroupOffset, octetAdsReadByName, octetAdsWriteByName, octetMotorHandleADRCmd,
-- octetMotorHandleOneArg, octetCmdHandleInputLine and octetCMDwriteIt, with writeOctet and readOctet.
-- A command's text is the list of its bytes; the ADS client port is an argument.
pub mod Io
pub mod Room
pub mod Line
pub mod Zeros
use twincat_ads.Base.Int.{ℤ, pos, negsuc}
use twincat_ads.Ads.{AdsApi, AdsSymbolEntry}
use twincat_ads.DrvInfo.Parse.{stripped}
use twincat_ads.DrvInfo.Parsed.{ends_with}
use twincat_ads.DrvInfo.{strstr}
use twincat_ads.Names.{AdsError, ads_error_to_string}
use twincat_ads.Octet.Print.Points.{
  Conversion, returned, null_pointer, unfinished, octet_binary2ascii,
}
use twincat_ads.Octet.Print.{Printf, byte_at, printed}
use twincat_ads.Octet.Scan.{SscanfValue, octet_ascii2binary}
use twincat_ads.Octet.Split.{cut, octet_create_argv_sepv}
use twincat_ads.Octet.{OctetBuffer, ads_cmd_buffer_size, bytes_from, octet_cmd_read_it}
use twincat_ads.Symbol.{zero_symbol, ads_get_symbol}
use twincat_ads.Upload.{codes}
use twincat_ads.Upload.Collect.{is_prefix, same_codes}
use twincat_ads.Base.{
  ℕ, suc, ◌-◌, ◌%◌, ◌^◌, Bool, true, false, String, List, [], ◌∷◌, ◌++◌, Option, none, some,
  AsynStatus, asyn_success, asyn_error, asyn_timeout, failed, ltb, leb, ◌==◌, if◌then◌else◌, length,
  take, drop, not, ◌&&◌,
}

-- What sscanf reads of a command: an ams port ("%" SCNu16) and an address
-- (".ADR.16#%x,16#%x,%u,%u="), with none where it does not give all of the values.
pub record SscanfCommand : Type 0 where
  pub scan_port : List ℕ → Option ℕ
  pub scan_adr : List ℕ → Option (ℕ × ℕ × ℕ × ℕ)

-- A code with the output buffer, or a thread that has used a null pointer or memory outside of a text or
-- an array, after which C says nothing of it, or is still in a loop.
pub data Answer (W : Type 0) : Type 0 where
  answered : ℕ → OctetBuffer → W → Answer W
  crashed : Answer W
  looping : Answer W

-- ADS_COM_ERROR_OCTET_ADSPORT_OPTION_FAIL
abbrev pub adsport_option_fail : ℕ
adsport_option_fail = 1007

-- What a command uses: AdsLib and the addresses, the formats, the text of a name's bytes, the numbers of
-- AdsLib's errors, octetReturnVarName_ and amsportDefault_.
pub record OctetEnv (W : Type 0) : Type 0 where
  pub api : AdsApi W
  pub remote_net_id : List ℕ
  pub client : ℕ
  pub fmt : Printf
  pub values : SscanfValue
  pub commands : SscanfCommand
  pub text : List ℕ → String
  pub error_value : AdsError → ℕ
  pub return_var_name : Bool
  pub amsport_default : ℕ

module _ {W : Type 0} (env : OctetEnv W) where
  open env use {api, remote_net_id, client, fmt, values, commands, text, error_value}
  open env use {return_var_name, amsport_default}

  unfoldable pub converted : W → Conversion → Answer W
  converted w (returned error b) = answered error b w
  converted w null_pointer = crashed
  converted w unfinished = looping

  unfoldable pub octet_ads_read_by_group_offset : ℕ → AdsSymbolEntry → OctetBuffer → W → Answer W
  unfolding converted octet_binary2ascii byte_at
  octet_ads_read_by_group_offset ams_port info b w =
      let data_size =
        if ltb ads_cmd_buffer_size info.size then ads_cmd_buffer_size else info.size in
      let (error, data_bytes, bytes_read, w') =
        api.read_bytes client (record { net_id = remote_net_id; port = ams_port }) info.i_group
          info.i_offset data_size w in
      if not (error == 0)
      then answered error b w'
      else converted w' (
          octet_binary2ascii fmt return_var_name (byte_at data_bytes) ads_cmd_buffer_size info
            (suc info.size) b)

  -- After the conversion, which has the error code, the bytes processed and the buffer.
  unfoldable pub octet_bytes_written : ℕ → ℕ → ℕ → ℕ → ℕ → ℕ → (ℕ → ℕ) → OctetBuffer → W → Answer W
  unfolding printed bytes_from
  octet_bytes_written ams_port group offset data_size error bytes_processed binary b w =
      if not (error == 0)
      then answered error (printed fmt b (codes "Error: " ++ fmt.print_x error)) w
      else let bytes = if ltb data_size bytes_processed then data_size else bytes_processed in
        let (status, w') =
          api.write_bytes client (record { net_id = remote_net_id; port = ams_port }) group offset
            bytes (bytes_from bytes 0 binary) w in
        answered status b w'

  unfoldable pub octet_ads_write_by_group_offset :
      ℕ → ℕ → ℕ → ℕ → ℕ → List ℕ → OctetBuffer → W → Answer W
  unfolding octet_ascii2binary octet_bytes_written
  octet_ads_write_by_group_offset ams_port group offset data_type data_size ascii b w =
      elim (octet_ascii2binary values data_type ads_cmd_buffer_size (suc (length ascii)) ascii 0
        (λ i. 0)) [
          | none ↦ looping
          | some q ↦
              octet_bytes_written ams_port group offset data_size q.error q.bytes_processed q.binary
                b w
        ]

  unfoldable pub octet_ads_read_by_name : ℕ → List ℕ → OctetBuffer → W → Answer W
  unfolding ads_get_symbol octet_ads_read_by_group_offset
  octet_ads_read_by_name ams_port variable b w =
      let (status, code, info, w') =
        ads_get_symbol api remote_net_id client ams_port (text variable) zero_symbol w in
      if failed status
      then answered code b w'
      else octet_ads_read_by_group_offset ams_port info b w'

  unfoldable pub octet_ads_write_by_name : ℕ → List ℕ → List ℕ → OctetBuffer → W → Answer W
  unfolding ads_get_symbol octet_ads_write_by_group_offset
  octet_ads_write_by_name ams_port variable ascii b w =
      let (status, code, info, w') =
        ads_get_symbol api remote_net_id client ams_port (text variable) zero_symbol w in
      if failed status
      then answered code b w'
      else octet_ads_write_by_group_offset ams_port info.i_group info.i_offset
          (info.data_type % 2 ^ 16) info.size ascii b w'

  -- OCTET_RETURN_ERROR with "%s" and adsErrorToString, and a line's end.
  unfoldable pub octet_return_error : List ℕ → ℕ → OctetBuffer → W → Answer W
  unfolding printed ads_error_to_string
  octet_return_error line_end code b w =
      let named = codes (ads_error_to_string error_value code) ++ line_end in
      answered code (printed fmt (printed fmt b (codes "Error: ")) named) w

  -- What follows a request: the error is printed, or else `ok`.
  unfoldable pub reported : List ℕ → Answer W → Answer W
  unfolding octet_return_error printed
  reported ok (answered code b w) =
      if not (code == 0)
      then octet_return_error [] code b w
      else answered 0 (if length ok == 0 then b else printed fmt b ok) w
  reported ok crashed = crashed
  reported ok looping = looping

  -- The error codes without a name are the numbers of the lines.
  unfoldable pub octet_motor_handle_adr_cmd : List ℕ → ℕ → OctetBuffer → W → Answer W
  unfolding cut octet_ads_write_by_group_offset octet_ads_read_by_group_offset reported
  octet_motor_handle_adr_cmd arg ams_port b w = elim (commands.scan_adr arg) [
    | none ↦ answered 3643 b w
    | some (group, offset, len, type) ↦ elim (cut b'=' arg).1 [
      | some ascii ↦
          reported (codes "OK")
            (octet_ads_write_by_group_offset ams_port group offset (type % 2 ^ 16) len ascii b w)
      | none ↦ elim (cut b'?' arg).1 [
        | some rest ↦ reported [] (
            octet_ads_read_by_group_offset ams_port
              (record zero_symbol {
                data_type = type;
                size = len;
                i_group = group;
                i_offset = offset;
              })
              b w)
        | none ↦ answered 3687 b w
      ]
    ]
  ]

  -- What follows a command .ADR.: its code is printed again, with a line's end.
  unfoldable pub octet_handle_adr : Answer W → Answer W
  unfolding octet_return_error
  octet_handle_adr (answered code b w) =
      if code == 0 then answered 0 b w else octet_return_error (b'\n' ∷ []) code b w
  octet_handle_adr crashed = crashed
  octet_handle_adr looping = looping

  -- A symbolic write or read, or else a bad command. A name that does not fit `variableName`, of 255
  -- bytes, with a final 0 is written or read beyond this array.
  unfoldable pub octet_handle_symbol : List ℕ → ℕ → OctetBuffer → W → Answer W
  unfolding cut reported octet_ads_write_by_name octet_ads_read_by_name printed
  octet_handle_symbol arg ams_port b w = elim (cut b'=' arg).1 [
    | some ascii ↦
        if ltb (length (cut b'=' arg).0) 255
        then reported (codes "OK") (octet_ads_write_by_name ams_port (cut b'=' arg).0 ascii b w)
        else crashed
    | none ↦ elim (cut b'?' arg).1 [
      | some rest ↦
          if ltb (length (cut b'?' arg).0) 255
          then reported [] (octet_ads_read_by_name ams_port (cut b'?' arg).0 b w)
          else crashed
      | none ↦ answered 0 (printed fmt b (codes "Error: Bad command")) w
    ]
  ]

  -- After the ADSPORT option.
  unfoldable pub octet_handle_command : List ℕ → ℕ → OctetBuffer → W → Answer W
  unfolding same_codes strstr printed octet_motor_handle_adr_cmd octet_handle_adr
      octet_handle_symbol
  octet_handle_command arg ams_port b w =
      if same_codes arg (codes ".THIS.sFeatures?")
      then answered 0 (printed fmt b (codes "ads;stv1")) w
      else elim (strstr (codes ".ADR.") arg) [
        | some adr ↦ octet_handle_adr (octet_motor_handle_adr_cmd adr ams_port b w)
        | none ↦ octet_handle_symbol arg ams_port b w
      ]

  -- What follows "ADSPORT" and one more byte. Without a slash the pointer to what follows it is null.
  unfoldable pub octet_handle_port : List ℕ → OctetBuffer → W → Answer W
  unfolding cut octet_return_error octet_handle_command
  octet_handle_port arg b w = elim (commands.scan_port arg) [
    | none ↦
        answered adsport_option_fail
          (printed fmt (printed fmt b (codes "Error: "))
            (codes "ADS_COM_ERROR_OCTET_ADSPORT_OPTION_FAIL"))
          w
    | some ams_port ↦ elim (cut b'/' arg).1 [
      | none ↦ crashed
      | some command ↦ octet_handle_command command ams_port b w
    ]
  ]

  -- Behind the bare text ADSPORT the pointer is beyond the final 0.
  unfoldable pub octet_motor_handle_one_arg : List ℕ → OctetBuffer → W → Answer W
  unfolding is_prefix octet_handle_port octet_handle_command
  octet_motor_handle_one_arg arg b w =
      if is_prefix (codes "ADSPORT") arg
      then if length arg == 7 then crashed else octet_handle_port (drop 8 arg) b w
      else octet_handle_command arg amsport_default b w

  -- The code of the first command with an error is kept.
  unfoldable pub octet_handle_args : List (List ℕ × List ℕ) → ℕ → OctetBuffer → W → Answer W
  unfolding octet_motor_handle_one_arg printed
  octet_handle_args [] latch b w = answered latch b w
  octet_handle_args ((arg, sep) ∷ args) latch b w = elim (octet_motor_handle_one_arg arg b w) [
    | answered code b' w' ↦
        octet_handle_args args (if latch == 0 then code else latch) (printed fmt b' sep) w'
    | crashed ↦ crashed
    | looping ↦ looping
  ]

  unfoldable pub octet_cmd_handle_input_line : List ℕ → OctetBuffer → W → Answer W
  unfolding octet_create_argv_sepv octet_handle_args
  octet_cmd_handle_input_line line b w =
      octet_handle_args (drop 1 (octet_create_argv_sepv line)) 0 b w

  -- `line` without a line feed, and a carriage return before it, at its end; and these.
  unfoldable pub without_line_end : List ℕ → List ℕ × List ℕ
  unfolding ends_with stripped
  without_line_end line =
      if ltb 1 (length line) && ends_with b'\n' line
      then if ltb 1 (length (stripped line)) && ends_with b'\r' (stripped line)
        then (stripped (stripped line), b'\r' ∷ b'\n' ∷ [])
        else (stripped line, b'\n' ∷ [])
      else (line, [])

  -- The functions below take the command as C's text, which ends at a 0.
  unfoldable pub octet_cmd_write_it : List ℕ → OctetBuffer → W → Answer W
  unfolding without_line_end octet_cmd_handle_input_line printed cut
  octet_cmd_write_it inbuf b w =
      let (line, line_end) = without_line_end inbuf in
      elim (octet_cmd_handle_input_line (cut 0 line).0 b w) [
        | answered code b' w' ↦ answered code (printed fmt b' line_end) w'
        | crashed ↦ crashed
        | looping ↦ looping
      ]
