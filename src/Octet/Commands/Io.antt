-- ===== src/Octet/Commands/Io.antt =====
-- adsApp/src/adsAsynPortDriver.cpp: writeOctet and readOctet, by which EPICS sends a line of commands
-- and reads the answers.
use twincat_ads.Base.Int.{pos, negsuc}
use twincat_ads.Names.{adserr_client_error}
use twincat_ads.Octet.Commands.{OctetEnv, Answer, answered, crashed, looping, octet_cmd_write_it}
use twincat_ads.Octet.Split.{cut}
use twincat_ads.Octet.{OctetBuffer, octet_cmd_read_it}
use twincat_ads.Base.{
  ℕ, ◌-◌, ◌^◌, Bool, List, [], Option, none, some, AsynStatus, asyn_success, asyn_error,
  asyn_timeout, leb, ltb, ◌==◌, if◌then◌else◌, length, take, ◌&&◌,
}

-- ASYN_EOM_CNT and ASYN_EOM_EOS.
pub data EomReason : Type 0 where
  eom_cnt eom_eos : EomReason

-- What a read gives: the status, the number of bytes and the reason where they are set, the text, and
-- the buffer.
pub record OctetReading : Type 0 where
  pub status : AsynStatus
  pub n_actual : Option ℕ
  pub eom_reason : Option EomReason
  pub value : List ℕ
  pub buffer : OctetBuffer

-- `timeout_zero` is `pasynUser->timeout == 0`; `maxChars - 1` is of `size_t`.
unfoldable pub read_octet : Bool → ℕ → OctetBuffer → OctetReading
unfolding octet_cmd_read_it cut
read_octet timeout_zero max_chars b =
    let (error, written, b') = octet_cmd_read_it b max_chars in
    let value = (cut 0 written).0 in
    let this_read = length value in
    let last = if max_chars == 0 then 2 ^ 64 - 1 else max_chars - 1 in
    elim error [
      | negsuc n ↦ record {
        status = asyn_error;
        n_actual = none;
        eom_reason = none;
        value = [];
        buffer = b';
      }
      | pos n ↦ record {
        status =
            if n == 0
            then if this_read == 0 && timeout_zero then asyn_timeout else asyn_success
            else asyn_error;
        n_actual = if n == 0 then some this_read else none;
        eom_reason =
            if n == 0 then some (if ltb last this_read then eom_cnt else eom_eos) else none;
        value = value;
        buffer = b';
      }
    ]

module _ {W : Type 0} (env : OctetEnv W) where
  -- The status and the number of bytes written; none where the thread does not return.
  unfoldable pub written_octets : ℕ → Answer W → Option (AsynStatus × ℕ × OctetBuffer × W)
  written_octets max_chars (answered code b w) = some (
      if leb (env.error_value adserr_client_error) code
      then (asyn_error, 0, b, w)
      else (asyn_success, max_chars, b, w))
  written_octets max_chars crashed = none
  written_octets max_chars looping = none

  unfoldable pub write_octet :
      List ℕ → ℕ → OctetBuffer → W → Option (AsynStatus × ℕ × OctetBuffer × W)
  unfolding octet_cmd_write_it written_octets
  write_octet value max_chars b w =
      if max_chars == 0
      then some (asyn_success, 0, b, w)
      else written_octets max_chars (octet_cmd_write_it env (take max_chars value) b w)
