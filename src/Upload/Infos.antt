-- ===== src/Upload/Infos.antt =====
-- adsApp/src/adsAsynPortDriver.cpp, resolveSymbolInfo: where in a reply the data of a symbol is found.
use twincat_ads.Ads.{AmsAddr, AdsApi}
use twincat_ads.Transfer.Write.{le_bytes}
use twincat_ads.Update.{SymbolDict}
use twincat_ads.Upload.{codes, chunk_size, entry_size, write_buf, with_info}
use twincat_ads.Base.{ℕ, ◌+◌, ◌*◌, ◌^◌, ◌≤◌, ◌<◌, ◌≡◌, String, List, [], ◌∷◌, ◌++◌, map, length}

module _ (c_text : List ℕ → String) (to_lower : String → String)
    (answer : String → ℕ × List ℕ) where
  -- What the PLC answers for each symbol: a result, and its data, of any length.
  unfoldable pub info_statuses : List String → List ℕ
  info_statuses [] = []
  info_statuses (s ∷ ss) =
      le_bytes 4 (answer s).0 ++ le_bytes 4 (length (answer s).1) ++ info_statuses ss

  unfoldable pub info_data : List String → List ℕ
  info_data [] = []
  info_data (s ∷ ss) = (answer s).1 ++ info_data ss

  -- The dictionary once every symbol has been entered with its own answer.
  unfoldable pub informed : List String → SymbolDict → SymbolDict
  informed [] d = d
  informed (s ∷ ss) d =
      informed ss (with_info c_text to_lower s (answer s).0 (length (answer s).1) (answer s).1 d)

  abbrev pub FitWords : Type 0
  FitWords = (s : String) → ((answer s).0 < 2 ^ 32) × (length (answer s).1 < 2 ^ 32)

  module _ {W : Type 0} (api : AdsApi W) (remote : AmsAddr) (client : ℕ) where
    -- A PLC that grants each request for the information of up to 500 symbols, and answers with the
    -- results and lengths first, and then the data, each of its own length.
    pub record IsInfoServer : Type 0 where
      pub words : FitWords
      pub answered :
          (chunk : List String) (w : W)
          → length chunk ≤ chunk_size
          → (n : ℕ) × (v : W) × (api.sum_up_read_write client remote
                (length chunk)
                (length chunk * 8 + length chunk * entry_size)
                (write_buf api.sym_infobynameex entry_size (map codes chunk))
                w
              ≡ (0, info_statuses chunk ++ info_data chunk, n, v))
            × (n ≤ length chunk * 8 + length chunk * entry_size)
