-- ===== src/Octet/Commands/Room.antt =====
-- adsApp/src/adsAsynPortDriver.cpp: the ASCII commands keep the output buffer within its array.
use twincat_ads.Ads.{AdsSymbolEntry}
use twincat_ads.Names.{ads_error_to_string}
use twincat_ads.Octet.Commands.{
  OctetEnv, Answer, answered, crashed, looping, converted, octet_ads_read_by_group_offset,
  octet_bytes_written, octet_ads_write_by_group_offset, octet_ads_read_by_name,
  octet_ads_write_by_name, octet_return_error, reported, octet_motor_handle_adr_cmd,
  octet_handle_adr,
}
use twincat_ads.Octet.Print.Points.{
  Conversion, returned, null_pointer, unfinished, octet_binary2ascii,
}
use twincat_ads.Octet.Print.Room.{
  HasRoom, printed-HasRoom, ConversionRoom, octet_binary2ascii-ConversionRoom,
}
use twincat_ads.Octet.Print.{byte_at, printed}
use twincat_ads.Octet.Scan.{octet_ascii2binary}
use twincat_ads.Octet.Split.{cut}
use twincat_ads.Octet.{OctetBuffer, ads_cmd_buffer_size}
use twincat_ads.Symbol.{zero_symbol, ads_get_symbol}
use twincat_ads.Upload.{codes}
use twincat_ads.Base.{
  ℕ, ◌%◌, ◌^◌, suc, ◌%◌, ◌^◌, ◌≤◌, inl, inr, List, [], ◌∷◌, ◌++◌, ltb, ◌==◌, if◌then◌else◌, length,
  not, Option-cases, if-intro, failed,
}

module _ {W : Type 0} (env : OctetEnv W) (size : ℕ) (small : size ≤ ads_cmd_buffer_size) where
  open env use {fmt}

  -- If there is an answer, its output buffer has room.
  abbrev pub AnswerRoom : Answer W → Type 0
  AnswerRoom (answered code b w) = HasRoom size b
  AnswerRoom crashed = Unit {0}
  AnswerRoom looping = Unit {0}

  converted-Room :
      (w : W) (c : Conversion) → ConversionRoom fmt size small c → AnswerRoom (converted env w c)
  unfolding converted
  converted-Room w (returned error b) h = h
  converted-Room w null_pointer h = tt
  converted-Room w unfinished h = tt

  read-Room :
      (ams_port : ℕ) (info : AdsSymbolEntry) (b : OctetBuffer) (w : W)
      → HasRoom size b
      → AnswerRoom (octet_ads_read_by_group_offset env ams_port info b w)
  unfolding octet_ads_read_by_group_offset
  read-Room ams_port info b w h =
      let data_size =
        if ltb ads_cmd_buffer_size info.size then ads_cmd_buffer_size else info.size in
      let (error, data_bytes, bytes_read, w') =
        env.api.read_bytes env.client (record { net_id = env.remote_net_id; port = ams_port })
          info.i_group info.i_offset data_size w in
      if-intro AnswerRoom (not (error == 0)) (λ _. h)
        (λ _.
          converted-Room w'
            (octet_binary2ascii fmt env.return_var_name (byte_at data_bytes) ads_cmd_buffer_size
              info (suc info.size) b)
            (octet_binary2ascii-ConversionRoom fmt size small env.return_var_name
              (byte_at data_bytes) ads_cmd_buffer_size info (suc info.size) b h))

  written-Room :
      (ams_port group offset data_size error bytes_processed : ℕ) (binary : ℕ → ℕ) (b : OctetBuffer)
      (w : W)
      → HasRoom size b
      → AnswerRoom
          (octet_bytes_written env ams_port group offset data_size error bytes_processed binary b w)
  unfolding octet_bytes_written
  written-Room ams_port group offset data_size error bytes_processed binary b w h =
      if-intro AnswerRoom (not (error == 0))
        (λ _. printed-HasRoom fmt size small b (codes "Error: " ++ fmt.print_x error) h) (λ _. h)

  write-Room :
      (ams_port group offset data_type data_size : ℕ) (ascii : List ℕ) (b : OctetBuffer) (w : W)
      → HasRoom size b
      → AnswerRoom
          (octet_ads_write_by_group_offset env ams_port group offset data_type data_size ascii b w)
  unfolding octet_ads_write_by_group_offset
  write-Room ams_port group offset data_type data_size ascii b w h =
      elim (Option-cases (
        octet_ascii2binary env.values data_type ads_cmd_buffer_size (suc (length ascii)) ascii 0
          (λ i. 0))) [
            | inl e ↦ rw (octet_ads_write_by_group_offset, e) tt
            | inr (q, e) ↦
                rw (octet_ads_write_by_group_offset, e)
                  (written-Room ams_port group offset data_size q.error q.bytes_processed q.binary b
                    w h)
          ]

  pub read_by_name-Room :
      (ams_port : ℕ) (variable : List ℕ) (b : OctetBuffer) (w : W)
      → HasRoom size b
      → AnswerRoom (octet_ads_read_by_name env ams_port variable b w)
  unfolding octet_ads_read_by_name
  read_by_name-Room ams_port variable b w h =
      let (status, code, info, w') =
        ads_get_symbol env.api env.remote_net_id env.client ams_port (env.text variable) zero_symbol
          w in
      if-intro AnswerRoom (failed status) (λ _. h) (λ _. read-Room ams_port info b w' h)

  pub write_by_name-Room :
      (ams_port : ℕ) (variable ascii : List ℕ) (b : OctetBuffer) (w : W)
      → HasRoom size b
      → AnswerRoom (octet_ads_write_by_name env ams_port variable ascii b w)
  unfolding octet_ads_write_by_name
  write_by_name-Room ams_port variable ascii b w h =
      let (status, code, info, w') =
        ads_get_symbol env.api env.remote_net_id env.client ams_port (env.text variable) zero_symbol
          w in
      if-intro AnswerRoom (failed status) (λ _. h)
        (λ _.
          write-Room ams_port info.i_group info.i_offset (info.data_type % 2 ^ 16) info.size ascii b
            w' h)

  pub return_error-Room :
      (line_end : List ℕ) (code : ℕ) (b : OctetBuffer) (w : W)
      → HasRoom size b
      → AnswerRoom (octet_return_error env line_end code b w)
  unfolding octet_return_error
  return_error-Room line_end code b w h =
      printed-HasRoom fmt size small (printed fmt b (codes "Error: "))
        (codes (ads_error_to_string env.error_value code) ++ line_end)
        (printed-HasRoom fmt size small b (codes "Error: ") h)

  pub reported-Room : (ok : List ℕ) (a : Answer W) → AnswerRoom a → AnswerRoom (reported env ok a)
  unfolding reported
  reported-Room ok (answered code b w) h =
      if-intro AnswerRoom (not (code == 0)) (λ _. return_error-Room [] code b w h)
        (λ _.
          if-intro (HasRoom size) (length ok == 0) (λ _. h)
            (λ _. printed-HasRoom fmt size small b ok h))
  reported-Room ok crashed h = tt
  reported-Room ok looping h = tt

  pub adr_cmd-Room :
      (arg : List ℕ) (ams_port : ℕ) (b : OctetBuffer) (w : W)
      → HasRoom size b
      → AnswerRoom (octet_motor_handle_adr_cmd env arg ams_port b w)
  unfolding octet_motor_handle_adr_cmd
  adr_cmd-Room arg ams_port b w h = elim (Option-cases (env.commands.scan_adr arg)) [
    | inl e ↦ rw (octet_motor_handle_adr_cmd, e) h
    | inr ((group, offset, len, type), e) ↦ elim (Option-cases (cut b'=' arg).1) [
      | inr (ascii, f) ↦
          rw (octet_motor_handle_adr_cmd, e, f)
            (reported-Room (codes "OK")
              (octet_ads_write_by_group_offset env ams_port group offset (type % 2 ^ 16) len ascii b
                w)
              (write-Room ams_port group offset (type % 2 ^ 16) len ascii b w h))
      | inl f ↦ elim (Option-cases (cut b'?' arg).1) [
        | inl g ↦ rw (octet_motor_handle_adr_cmd, e, f, g) h
        | inr (rest, g) ↦
            let info = record zero_symbol {
              data_type = type;
              size = len;
              i_group = group;
              i_offset = offset;
            } in
            rw (octet_motor_handle_adr_cmd, e, f, g)
              (reported-Room [] (octet_ads_read_by_group_offset env ams_port info b w)
                (read-Room ams_port info b w h))
      ]
    ]
  ]

  pub handle_adr-Room : (a : Answer W) → AnswerRoom a → AnswerRoom (octet_handle_adr env a)
  unfolding octet_handle_adr
  handle_adr-Room (answered code b w) h =
      if-intro AnswerRoom (code == 0) (λ _. h) (λ _. return_error-Room (b'\n' ∷ []) code b w h)
  handle_adr-Room crashed h = tt
  handle_adr-Room looping h = tt
