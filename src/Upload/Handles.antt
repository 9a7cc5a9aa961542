-- ===== src/Upload/Handles.antt =====
-- adsApp/src/adsAsynPortDriver.cpp, resolveSymbolHandles: the handles that the dictionary gets.
use twincat_ads.Ads.{AmsAddr, AdsApi}
use twincat_ads.Transfer.Write.{le_bytes}
use twincat_ads.Update.{AdsSymbolDictEntry, SymbolDict}
use twincat_ads.Upload.{chunk_size, write_buf, with_handle, symbols_of}
use twincat_ads.Base.{
  ℕ, zero, suc, ◌*◌, ◌^◌, ◌≤◌, ◌<◌, ◌≡◌, refl, String, List, [], ◌∷◌, ◌++◌, length, drop, arith,
}

pub drop-append : {A : Type 0} (xs ys : List A) (n : ℕ) → n ≡ length xs → drop n (xs ++ ys) ≡ ys
drop-append [] ys zero e = refl
drop-append [] ys (suc n) e = absurd (omega (arith, e))
drop-append (x ∷ xs) ys zero e = absurd (omega (arith, e))
drop-append (x ∷ xs) ys (suc n) e = drop-append xs ys n (omega (arith, e))

-- What the PLC answers for each symbol: a result and a handle.
module _ (answer : String → ℕ × ℕ) where
  unfoldable pub statuses : SymbolDict → List ℕ
  statuses [] = []
  statuses ((k, e) ∷ d) = le_bytes 4 (answer e.symbol).0 ++ le_bytes 4 4 ++ statuses d

  unfoldable pub handle_words : SymbolDict → List ℕ
  handle_words [] = []
  handle_words ((k, e) ∷ d) = le_bytes 4 (answer e.symbol).1 ++ handle_words d

  -- An entry with the answer for its own symbol.
  abbrev pub settled : String × AdsSymbolDictEntry → String × AdsSymbolDictEntry
  settled (k, e) = (k, with_handle (answer e.symbol).0 (answer e.symbol).1 e)

  abbrev pub AreWords : Type 0
  AreWords = (s : String) → ((answer s).0 < 2 ^ 32) × ((answer s).1 < 2 ^ 32)

  module _ {W : Type 0} (api : AdsApi W) (remote : AmsAddr) (client : ℕ) where
    -- A PLC that grants each request for up to 500 handles, and answers every sub-request with four
    -- bytes: first the results and lengths, then the handles.
    pub record IsHandleServer : Type 0 where
      pub words : AreWords
      pub answered :
          (chunk : SymbolDict) (w : W)
          → length chunk ≤ chunk_size
          → (n : ℕ) × (v : W) × (api.sum_up_read_write client remote
                (length chunk)
                (length chunk * 12)
                (write_buf api.sym_hndbyname 4 (symbols_of chunk))
                w
              ≡ (0, statuses chunk ++ handle_words chunk, n, v))
