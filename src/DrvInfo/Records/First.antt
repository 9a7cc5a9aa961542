-- ===== src/DrvInfo/Records/First.antt =====
-- adsApp/src/adsAsynPortDriver.cpp, buildDrvInfoCache: which record the cache gives for a port and a
-- text.
use twincat_ads.DrvInfo.Records.{DbRecord, RecordInfo, try_link, record_info, text_or_empty}
use twincat_ads.Upload.Collect.{same_codes}
use twincat_ads.Base.{ℕ, String, List, [], ◌∷◌, Option, none, some, if◌then◌else◌}

-- The first of two that is there.
unfoldable pub or_else {ℓ} : {A : Type ℓ} → Option A → Option A → Option A
or_else none o = o
or_else (some a) o = some a

-- The entry, where this is its key.
abbrev keyed : List ℕ → List ℕ → RecordInfo → Option RecordInfo
keyed key k e = if same_codes k key then some e else none

module _ (undefined : ℕ) (scan_link : String → Option (List ℕ × List ℕ)) (key : List ℕ) where
  -- The entry of a link, if it is one with this key.
  unfoldable pub linked : Option (List ℕ) → RecordInfo → Option RecordInfo
  unfolding same_codes
  linked none e = none
  linked (some k) e = keyed key k e

  -- The entry of a record, of its field INP or else OUT.
  unfoldable pub entry_of : DbRecord → Option RecordInfo
  unfolding or_else linked try_link record_info
  entry_of r =
      if r.is_alias
      then none
      else or_else
          (linked (try_link undefined scan_link r.inp)
            (record_info undefined scan_link r (text_or_empty undefined scan_link r.inp) ""))
          (linked (try_link undefined scan_link r.out)
            (record_info undefined scan_link r "" (text_or_empty undefined scan_link r.out)))

  -- The entry of the first record that has one.
  unfoldable pub first_entry : List DbRecord → Option RecordInfo
  unfolding or_else entry_of
  first_entry [] = none
  first_entry (r ∷ records) = or_else (entry_of r) (first_entry records)
