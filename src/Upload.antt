-- ===== src/Upload.antt =====
-- adsApp/src/adsAsynPortDriver.cpp: resolveSymbolHandles and resolveSymbolInfo, which fill the
-- dictionary of symbols by requests for up to 500 symbols each. The dictionary's order is that of the
-- list. `codes` gives the bytes of a text. The C text at the start of a buffer is a parameter.
pub mod Collect
pub mod Infos
pub mod Handles
use Prim.Native.Char.{code}
use Prim.Native.String
use twincat_ads.Ads.{AmsAddr, AdsApi}
use twincat_ads.EtherCat.{le_number}
use twincat_ads.Transfer.Value.{overlay}
use twincat_ads.Transfer.Write.{le_bytes}
use twincat_ads.Update.{AdsSymbolDictEntry, SymbolDict}
use text.Mathlib.Text.{◌==◌ as str_eq}
use twincat_ads.Base.{
  ℕ, zero, suc, ◌+◌, ◌-◌, ◌*◌, ◌/◌, Bool, true, false, String, List, [], ◌∷◌, ◌++◌, map, Option,
  none, some, AsynStatus, asyn_success, asyn_error, ltb, ◌==◌, if◌then◌else◌, length, take, drop,
  replicate, not, ◌&&◌, min,
}

abbrev pub codes : String → List ℕ
codes String.[] = []
codes (String.◌∷◌ c s) = code c ∷ codes s

abbrev pub chunk_size : ℕ
chunk_size = 500

-- `sizeof(adsSymbolEntry)`
abbrev pub entry_size : ℕ
entry_size = 824

abbrev pub n_chunks : ℕ → ℕ
n_chunks n = (n + chunk_size - 1) / chunk_size

-- The header of a sub-request: the group, an offset of 0, and what is read and written.
unfoldable pub header : ℕ → ℕ → List ℕ → List ℕ
unfolding le_bytes
header group read_len name =
    le_bytes 4 group ++ le_bytes 4 0 ++ le_bytes 4 read_len ++ le_bytes 4 (length name)

unfoldable pub headers : ℕ → ℕ → List (List ℕ) → List ℕ
unfolding header
headers group read_len [] = []
headers group read_len (name ∷ names) = header group read_len name ++ headers group read_len names

unfoldable pub all_names : List (List ℕ) → List ℕ
all_names [] = []
all_names (name ∷ names) = name ++ all_names names

unfoldable pub write_buf : ℕ → ℕ → List (List ℕ) → List ℕ
unfolding headers all_names
write_buf group read_len names = headers group read_len names ++ all_names names

-- The two words of a status, and the rest of the block.
abbrev pub first_word : List ℕ → ℕ
first_word block = le_number (take 4 block)

abbrev pub second_word : List ℕ → ℕ
second_word block = le_number (take 4 (drop 4 block))

unfoldable pub with_handle : ℕ → ℕ → AdsSymbolDictEntry → AdsSymbolDictEntry
with_handle result handle e =
    if result == 0 && not (handle == 0) then record e { handle = handle; resolved = true } else e

-- The loop over the entries of a chunk, with what is left of the two blocks of the reply.
unfoldable pub with_handles : List ℕ → List ℕ → SymbolDict → SymbolDict
unfolding with_handle
with_handles status_block handle_block [] = []
with_handles status_block handle_block ((k, e) ∷ d) =
    (k, with_handle (first_word status_block) (first_word handle_block) e)
    ∷ with_handles (drop 8 status_block) (drop 4 handle_block) d

abbrev pub symbols_of : SymbolDict → List (List ℕ)
symbols_of = map λ x. codes x.1.symbol

-- The entry that the information of a symbol becomes; `old` is what the dictionary had for its key.
unfoldable pub info_entry :
    (List ℕ → String) → String → String → List ℕ → Option AdsSymbolDictEntry → AdsSymbolDictEntry
info_entry c_text symbol lower info old = record {
  symbol = symbol;
  symbol_lower = lower;
  datatype = c_text (drop (30 + le_number (take 2 (drop 24 info)) + 1) info);
  size = le_number (take 4 (drop 12 info));
  adst = le_number (take 4 (drop 16 info));
  handle = elim old [ none ↦ 0 | some e ↦ e.handle ];
  resolved = false;
}

-- `symbolDict_[key] = ...`, with what stood there before.
unfoldable pub set_entry :
    String → (Option AdsSymbolDictEntry → AdsSymbolDictEntry) → SymbolDict → SymbolDict
set_entry key f [] = (key, f none) ∷ []
set_entry key f ((k, e) ∷ d) =
    let rest = set_entry key f d in if str_eq k key then (k, f (some e)) ∷ d else (k, e) ∷ rest

-- The copy of a symbol's data into a zeroed adsSymbolEntry.
abbrev pub copied_info : ℕ → List ℕ → List ℕ
copied_info ret_len data_block =
    overlay (take (min ret_len entry_size) data_block) (replicate entry_size 0)

module _ (c_text : List ℕ → String) (to_lower : String → String) where
  unfoldable pub with_info : String → ℕ → ℕ → List ℕ → SymbolDict → SymbolDict
  unfolding set_entry info_entry
  with_info symbol result ret_len data_block d =
      if not (result == 0)
      then d
      else if ltb ret_len 36
      then d
      else set_entry (to_lower symbol)
          (info_entry c_text symbol (to_lower symbol) (copied_info ret_len data_block)) d

  -- The loop over the symbols of a chunk; the pointer into the data moves by each `retLen`.
  unfoldable pub with_infos : List ℕ → List ℕ → List String → SymbolDict → SymbolDict
  unfolding with_info
  with_infos status_block data_block [] d = d
  with_infos status_block data_block (symbol ∷ symbols) d =
      let ret_len = second_word status_block in
      with_infos (drop 8 status_block) (drop ret_len data_block) symbols
        (with_info symbol (first_word status_block) ret_len data_block d)

module _ {W : Type 0} (api : AdsApi W) (remote : AmsAddr) (client : ℕ) where
  open api use {sum_up_read_write, sym_hndbyname, sym_infobynameex}

  unfoldable pub handles_answered : SymbolDict → ℕ × List ℕ × ℕ × W → SymbolDict × W
  unfolding with_handles
  handles_answered chunk (rc, reply, bytes_read, w) =
      let n = length chunk in
      let read_buf = overlay reply (replicate (n * 12) 0) in
      if not (rc == 0) then (chunk, w) else (with_handles read_buf (drop (n * 8) read_buf) chunk, w)

  unfoldable pub handle_chunk : SymbolDict → W → SymbolDict × W
  unfolding handles_answered write_buf
  handle_chunk chunk w = handles_answered chunk (
      sum_up_read_write client remote (length chunk) (length chunk * 12)
        (write_buf sym_hndbyname 4 (symbols_of chunk)) w)

  -- `n` chunks.
  unfoldable pub handle_chunks : ℕ → SymbolDict → W → SymbolDict × W
  unfolding handle_chunk
  handle_chunks zero d w = (d, w)
  handle_chunks (suc n) d w =
      let (done, w') = handle_chunk (take chunk_size d) w in
      let (rest, w'') = handle_chunks n (drop chunk_size d) w' in (done ++ rest, w'')

  unfoldable pub resolve_symbol_handles : SymbolDict → W → AsynStatus × SymbolDict × W
  unfolding handle_chunks
  resolve_symbol_handles d w =
      let (d', w') = handle_chunks (n_chunks (length d)) d w in (asyn_success, d', w')

  module _ (c_text : List ℕ → String) (to_lower : String → String) where
    unfoldable pub infos_answered :
        List String → SymbolDict → ℕ × List ℕ × ℕ × W → AsynStatus × SymbolDict × W
    unfolding with_infos
    infos_answered chunk d (rc, reply, bytes_read, w) =
        let n = length chunk in
        let read_bytes = n * 8 + n * entry_size in
        let read_buf = overlay reply (replicate read_bytes 0) in
        if not (rc == 0)
        then (asyn_success, d, w)
        else if ltb read_bytes bytes_read
        then (asyn_error, d, w)
        else (asyn_success, with_infos c_text to_lower read_buf (drop (n * 8) read_buf) chunk d, w)

    unfoldable pub info_chunk : List String → SymbolDict → W → AsynStatus × SymbolDict × W
    unfolding infos_answered write_buf
    info_chunk chunk d w =
        let n = length chunk in
        infos_answered chunk d (
          sum_up_read_write client remote n (n * 8 + n * entry_size)
            (write_buf sym_infobynameex entry_size (map codes chunk)) w)

    -- A reply that is too long ends the function; a request that failed does not.
    unfoldable pub after_chunk :
        AsynStatus × SymbolDict × W
        → (SymbolDict → W → AsynStatus × SymbolDict × W)
        → AsynStatus × SymbolDict × W
    after_chunk (asyn_success, d, w) rest = rest d w
    after_chunk (_, d, w) rest = (asyn_error, d, w)

    unfoldable pub info_chunks : ℕ → List String → SymbolDict → W → AsynStatus × SymbolDict × W
    unfolding info_chunk after_chunk
    info_chunks zero symbols d w = (asyn_success, d, w)
    info_chunks (suc n) symbols d w =
        after_chunk (info_chunk (take chunk_size symbols) d w)
          λ d' w'. info_chunks n (drop chunk_size symbols) d' w'

    -- From the symbols on that the database names (`collected` of Upload/Collect).
    unfoldable pub resolve_symbol_info : List String → W → AsynStatus × SymbolDict × W
    unfolding info_chunks
    resolve_symbol_info symbols w = info_chunks (n_chunks (length symbols)) symbols [] w
