-- ===== src/Examples/Uploads.antt =====
-- Examples of the upload of symbols, from a PLC that answers every sub-request alike.
use twincat_ads.Ads.{AdsApi, AmsAddr}
use twincat_ads.Transfer.Write.{le_bytes}
use twincat_ads.Update.{SymbolDict}
use twincat_ads.Examples.{a_plc, net_id}
use twincat_ads.Base.{ℕ, zero, suc, false, String, List, [], ◌∷◌, ◌++◌, replicate}

abbrev remote : AmsAddr
remote = record { net_id = net_id; port = 851 }

-- `n` times the same bytes.
abbrev times : ℕ → List ℕ → List ℕ
times zero b = []
times (suc n) b = b ++ times n b

abbrev handle_7 : String → ℕ × ℕ
handle_7 s = (0, 7)

-- Each sub-request is granted, with the handle 7.
abbrev handle_plc : AdsApi ℕ
handle_plc = record a_plc {
  sum_up_read_write = λ client to count size bytes w.
      (0, times count (le_bytes 4 0 ++ le_bytes 4 4) ++ times count (le_bytes 4 7), size, suc w);
}

abbrev a_dict : SymbolDict
a_dict =
    (
      "main.a",
      record {
        symbol = "Main.a";
        symbol_lower = "main.a";
        datatype = "INT";
        size = 2;
        adst = 2;
        handle = 0;
        resolved = false;
      },
    )
    ∷ []

-- Forty bytes for each symbol.
abbrev ones : String → ℕ × List ℕ
ones s = (0, replicate 40 1)

abbrev info_plc : AdsApi ℕ
info_plc = record a_plc {
  sum_up_read_write = λ client to count size bytes w.
      (0, times count (le_bytes 4 0 ++ le_bytes 4 40) ++ times count (replicate 40 1), 0, suc w);
}

abbrev no_text : List ℕ → String
no_text bytes = ""

abbrev same_case : String → String
same_case s = s
