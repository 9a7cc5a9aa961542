-- ===== src/Octet/Commands/Line.antt =====
-- adsApp/src/adsAsynPortDriver.cpp, octetCMDwriteIt and writeOctet: a line of ASCII commands keeps the
-- output buffer within its array.
use twincat_ads.Octet.Commands.Io.{written_octets, write_octet}
use twincat_ads.Octet.Commands.Room.{
  AnswerRoom, reported-Room, adr_cmd-Room, handle_adr-Room, read_by_name-Room, write_by_name-Room,
}
use twincat_ads.DrvInfo.{strstr}
use twincat_ads.Names.{adserr_client_error}
use twincat_ads.Octet.Commands.{
  OctetEnv, Answer, answered, crashed, looping, octet_ads_read_by_name, octet_ads_write_by_name,
  octet_motor_handle_adr_cmd, octet_handle_symbol, octet_handle_command, octet_handle_port,
  octet_motor_handle_one_arg, octet_handle_args, octet_cmd_handle_input_line, without_line_end,
  octet_cmd_write_it,
}
use twincat_ads.Octet.Print.Room.{HasRoom, printed-HasRoom}
use twincat_ads.Octet.Print.{printed}
use twincat_ads.Octet.Split.{cut, octet_create_argv_sepv}
use twincat_ads.Octet.{OctetBuffer, ads_cmd_buffer_size}
use twincat_ads.Upload.{codes}
use twincat_ads.Upload.Collect.{is_prefix, same_codes}
use twincat_ads.Base.{
  AsynStatus, asyn_success, ◌⊎◌, leb, ℕ, ◌≤◌, ◌≡◌, refl, inl, inr, List, [], ◌∷◌, Option, none,
  some, ltb, length, ◌==◌, if◌then◌else◌, drop, take, Bool-cases, Option-cases, if-intro,
}

module _ {W : Type 0} (env : OctetEnv W) (size : ℕ) (small : size ≤ ads_cmd_buffer_size) where
  open env use {fmt}

  abbrev Room : Answer W → Type 0
  Room = AnswerRoom env size small

  symbol-Room :
      (arg : List ℕ) (ams_port : ℕ) (b : OctetBuffer) (w : W)
      → HasRoom size b
      → Room (octet_handle_symbol env arg ams_port b w)
  unfolding octet_handle_symbol
  symbol-Room arg ams_port b w h = elim (Option-cases (cut b'=' arg).1) [
    | inr (ascii, e) ↦
        let name = (cut b'=' arg).0 in
        rw (octet_handle_symbol, e)
          (if-intro Room (ltb (length name) 255)
            (λ _.
              reported-Room env size small (codes "OK")
                (octet_ads_write_by_name env ams_port name ascii b w)
                (write_by_name-Room env size small ams_port name ascii b w h))
            (λ _. tt))
    | inl e ↦ elim (Option-cases (cut b'?' arg).1) [
      | inl f ↦
          rw (octet_handle_symbol, e, f)
            (printed-HasRoom fmt size small b (codes "Error: Bad command") h)
      | inr (rest, f) ↦
          let name = (cut b'?' arg).0 in
          rw (octet_handle_symbol, e, f)
            (if-intro Room (ltb (length name) 255)
              (λ _.
                reported-Room env size small [] (octet_ads_read_by_name env ams_port name b w)
                  (read_by_name-Room env size small ams_port name b w h))
              (λ _. tt))
    ]
  ]

  command-Room :
      (arg : List ℕ) (ams_port : ℕ) (b : OctetBuffer) (w : W)
      → HasRoom size b
      → Room (octet_handle_command env arg ams_port b w)
  unfolding octet_handle_command
  command-Room arg ams_port b w h = elim (Bool-cases (same_codes arg (codes ".THIS.sFeatures?"))) [
    | inl e ↦ rw (octet_handle_command, e) (printed-HasRoom fmt size small b (codes "ads;stv1") h)
    | inr e ↦ elim (Option-cases (strstr (codes ".ADR.") arg)) [
      | inl f ↦ rw (octet_handle_command, e, f) (symbol-Room arg ams_port b w h)
      | inr (adr, f) ↦
          rw (octet_handle_command, e, f)
            (handle_adr-Room env size small (octet_motor_handle_adr_cmd env adr ams_port b w)
              (adr_cmd-Room env size small adr ams_port b w h))
    ]
  ]

  port-Room :
      (arg : List ℕ) (b : OctetBuffer) (w : W)
      → HasRoom size b
      → Room (octet_handle_port env arg b w)
  unfolding octet_handle_port
  port-Room arg b w h = elim (Option-cases (env.commands.scan_port arg)) [
    | inl e ↦
        rw (octet_handle_port, e)
          (printed-HasRoom fmt size small (printed fmt b (codes "Error: "))
            (codes "ADS_COM_ERROR_OCTET_ADSPORT_OPTION_FAIL")
            (printed-HasRoom fmt size small b (codes "Error: ") h))
    | inr (ams_port, e) ↦ elim (Option-cases (cut b'/' arg).1) [
      | inl f ↦ rw (octet_handle_port, e, f) tt
      | inr (command, f) ↦ rw (octet_handle_port, e, f) (command-Room command ams_port b w h)
    ]
  ]

  one_arg-Room :
      (arg : List ℕ) (b : OctetBuffer) (w : W)
      → HasRoom size b
      → Room (octet_motor_handle_one_arg env arg b w)
  unfolding octet_motor_handle_one_arg
  one_arg-Room arg b w h =
      if-intro Room (is_prefix (codes "ADSPORT") arg)
        (λ _. if-intro Room (length arg == 7) (λ _. tt) (λ _. port-Room (drop 8 arg) b w h))
        (λ _. command-Room arg env.amsport_default b w h)

  Answer-cases :
      (a : Answer W)
      → (a ≡ crashed)
        ⊎ (a ≡ looping)
        ⊎ ((code : ℕ) × (b : OctetBuffer) × (w : W) × (a ≡ answered code b w))
  Answer-cases (answered code b w) = inr (inr (code, b, w, refl))
  Answer-cases crashed = inl refl
  Answer-cases looping = inr (inl refl)

  args-Room :
      (args : List (List ℕ × List ℕ)) (latch : ℕ) (b : OctetBuffer) (w : W)
      → HasRoom size b
      → Room (octet_handle_args env args latch b w)
  unfolding octet_handle_args
  args-Room [] latch b w h = h
  args-Room ((arg, sep) ∷ args) latch b w h =
      elim (Answer-cases (octet_motor_handle_one_arg env arg b w)) [
        | inl e ↦ rw (octet_handle_args, e) tt
        | inr (inl e) ↦ rw (octet_handle_args, e) tt
        | inr (inr (code, b', w', e)) ↦
            let answer = rw e at (one_arg-Room arg b w h) in
            rw (octet_handle_args, e)
              (args-Room args (if latch == 0 then code else latch) (printed fmt b' sep) w'
                (printed-HasRoom fmt size small b' sep answer))
      ]

  write_it-Room :
      (inbuf : List ℕ) (b : OctetBuffer) (w : W)
      → HasRoom size b
      → Room (octet_cmd_write_it env inbuf b w)
  unfolding octet_cmd_write_it octet_cmd_handle_input_line
  write_it-Room inbuf b w h =
      let (line, line_end) = without_line_end env inbuf in
      let first = (cut 0 line).0 in
      elim (Answer-cases (octet_cmd_handle_input_line env first b w)) [
        | inl e ↦ rw (octet_cmd_write_it, e) tt
        | inr (inl e) ↦ rw (octet_cmd_write_it, e) tt
        | inr (inr (code, b', w', e)) ↦
            let answer = rw e at (args-Room (drop 1 (octet_create_argv_sepv first)) 0 b w h) in
            rw (octet_cmd_write_it, e) (printed-HasRoom fmt size small b' line_end answer)
      ]

  abbrev Written : ℕ → Option (AsynStatus × ℕ × OctetBuffer × W) → Type 0
  Written max_chars none = Unit {0}
  Written max_chars (some r) =
      HasRoom size r.2 × (((r.0 ≡ asyn_success) × (r.1 ≡ max_chars)) ⊎ (r.1 ≡ 0))

  octets-Written :
      (max_chars : ℕ) (a : Answer W) → Room a → Written max_chars (written_octets env max_chars a)
  unfolding written_octets
  octets-Written max_chars (answered code b w) h =
      if-intro
        (λ (r : AsynStatus × ℕ × OctetBuffer × W).
          HasRoom size r.2 × (((r.0 ≡ asyn_success) × (r.1 ≡ max_chars)) ⊎ (r.1 ≡ 0)))
        (leb (env.error_value adserr_client_error) code) (λ _. (h, inr refl))
        (λ _. (h, inl (refl, refl)))
  octets-Written max_chars crashed h = tt
  octets-Written max_chars looping h = tt

  -- When writeOctet returns, its output buffer, whose array has at most 65536 bytes and which had
  -- room for the 0 at the end of its text, has it still, whatever the line of commands and the
  -- answers of the PLC; and it has taken all of the bytes or none. A line with a name of 255 bytes
  -- or more, or with the bare word ADSPORT, does not return in the model.
  pub write_octet-HasRoom :
      (value : List ℕ) (max_chars : ℕ) (b : OctetBuffer) (w : W) (status : AsynStatus) (n : ℕ)
      (b' : OctetBuffer) (w' : W)
      → HasRoom size b
      → write_octet env value max_chars b w ≡ some (status, n, b', w')
      → HasRoom size b' × (((status ≡ asyn_success) × (n ≡ max_chars)) ⊎ (n ≡ 0))
  unfolding write_octet written_octets
  write_octet-HasRoom value max_chars b w status n b' w' h returns =
      let whole : Written max_chars (write_octet env value max_chars b w) =
        if-intro (Written max_chars) (max_chars == 0) {x = some (asyn_success, 0, b, w)}
          (λ _. (h, inr refl))
          (λ _.
            octets-Written max_chars (octet_cmd_write_it env (take max_chars value) b w)
              (write_it-Room (take max_chars value) b w h)) in
      rw returns at whole
