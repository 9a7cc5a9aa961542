-- ===== src/Octet/Commands/Zeros.antt =====
-- adsApp/src/adsAsynPortDriver.cpp: a symbolic write of a text that is no number.
use twincat_ads.Ads.{AdsSymbolEntry}
use twincat_ads.Octet.Commands.{
  OctetEnv, answered, octet_bytes_written, octet_ads_write_by_group_offset, octet_ads_write_by_name,
  reported, octet_handle_symbol,
}
use twincat_ads.Octet.Print.{printed}
use twincat_ads.Octet.Scan.Errors.{octet_ascii2binary-mismatch}
use twincat_ads.Octet.Scan.{mismatch, number_size}
use twincat_ads.Octet.Split.{cut}
use twincat_ads.Octet.{OctetBuffer, ads_cmd_buffer_size, bytes_from}
use twincat_ads.Symbol.{zero_symbol, ads_get_symbol}
use twincat_ads.Upload.{codes}
use twincat_ads.Base.{
  ℕ, ◌≤◌, ◌<◌, ◌%◌, ◌^◌, ◌≡◌, refl, true, false, List, some, asyn_success, ltb, length, arith,
}

module _ {W : Type 0} (env : OctetEnv W) where
  open env use {api, remote_net_id, client, fmt}

  bytes_written-zeros :
      (ams_port group offset data_size size : ℕ) (b : OctetBuffer) (w w' : W)
      → size ≤ data_size
      → api.write_bytes client
          (record { net_id = remote_net_id; port = ams_port })
          group
          offset
          size
          (bytes_from size 0 (λ i. 0))
          w
        ≡ (0, w')
      → octet_bytes_written env ams_port group offset data_size 0 size (λ i. 0) b w
        ≡ answered 0 b w'
  unfolding octet_bytes_written
  bytes_written-zeros ams_port group offset data_size size b w w' fits sent =
      let all : ltb data_size size ≡ false = ground (arith, fits) in
      rw (octet_bytes_written, all, sent) refl

  write-zeros :
      (ams_port group offset type data_size size : ℕ) (ascii : List ℕ) (b : OctetBuffer) (w w' : W)
      → number_size type ≡ some size
      → env.values.scan_number type ascii ≡ mismatch
      → size ≤ data_size
      → api.write_bytes client
          (record { net_id = remote_net_id; port = ams_port })
          group
          offset
          size
          (bytes_from size 0 (λ i. 0))
          w
        ≡ (0, w')
      → octet_ads_write_by_group_offset env ams_port group offset type data_size ascii b w
        ≡ answered 0 b w'
  unfolding octet_ads_write_by_group_offset
  write-zeros ams_port group offset type data_size size ascii b w w' number none_there fits sent =
      let (q, ended, no_error, bytes, same) =
        octet_ascii2binary-mismatch env.values type ads_cmd_buffer_size size ascii (λ i. 0) number
          none_there (ground arith) in
      rw (octet_ads_write_by_group_offset, ended)
        (rw (no_error, bytes, same)
          (bytes_written-zeros ams_port group offset data_size size b w w' fits sent))

  -- A symbolic write, by a name of less than 255 bytes, to a variable of a number type, which the PLC
  -- describes and which is at least one element large, of a text in which sscanf finds no number writes
  -- the bytes of the number 0 to the variable's first element, and where the PLC accepts them answers OK
  -- with no error.
  pub octet_handle_symbol-zeros :
      (arg ascii : List ℕ) (ams_port code size : ℕ) (info : AdsSymbolEntry) (b : OctetBuffer)
      (w w' w'' : W)
      → (cut b'=' arg).1 ≡ some ascii
      → length (cut b'=' arg).0 < 255
      → ads_get_symbol api remote_net_id client ams_port (env.text (cut b'=' arg).0) zero_symbol w
        ≡ (asyn_success, code, info, w')
      → number_size (info.data_type % 2 ^ 16) ≡ some size
      → env.values.scan_number (info.data_type % 2 ^ 16) ascii ≡ mismatch
      → size ≤ info.size
      → api.write_bytes client
          (record { net_id = remote_net_id; port = ams_port })
          info.i_group
          info.i_offset
          size
          (bytes_from size 0 (λ i. 0))
          w'
        ≡ (0, w'')
      → octet_handle_symbol env arg ams_port b w ≡ answered 0 (printed fmt b (codes "OK")) w''
  unfolding octet_handle_symbol octet_ads_write_by_name reported
  octet_handle_symbol-zeros arg ascii ams_port code size info b w w' w'' split short described
        number none_there fits sent =
      let name : ltb (length (cut b'=' arg).0) 255 ≡ true = ground (arith, short) in
      rw (octet_handle_symbol, split)
        (rw (octet_ads_write_by_name, described)
          (rw
            (write-zeros ams_port info.i_group info.i_offset (info.data_type % 2 ^ 16) info.size
              size ascii b w' w'' number none_there fits sent)
            (rw name refl)))
