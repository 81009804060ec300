-- ===== src/Scheduler/Circuits/Naming.antt =====
-- The names of circuits, and which circuits concern a set of vendors.
use market_quorum.Prelude.{◌≡◌, refl, true, false, List, [], ◌∷◌, ◌++◌, some, arith, any}
use market_quorum.Prelude.Text.{
  Text, text_eq, starts_with, starts_with-append, after, after-append, has_char,
}
use market_quorum.Scheduler.Circuits.{gateway_name, vendor_prefix, colon, vendor_name}
use market_quorum.Scheduler.Circuits.Probes.{split_vendor, is_relevant}

has_char-append : (s t : Text) → has_char colon (s ++ colon ∷ t) ≡ true
unfolding has_char
has_char-append [] t = refl
has_char-append (c ∷ s) t = ground (arith, has_char-append s t)

after-vendor_name :
    (category vendor : Text)
    → after colon (vendor_name category vendor) ≡ category ++ colon ∷ vendor
unfolding vendor_name after
after-vendor_name category vendor = refl

has_char-vendor_name :
    (category vendor : Text) → has_char colon (vendor_name category vendor) ≡ true
unfolding vendor_name has_char
has_char-vendor_name category vendor = refl

starts_with-vendor_name :
    (category vendor : Text) → starts_with vendor_prefix (vendor_name category vendor) ≡ true
unfolding vendor_name
starts_with-vendor_name category vendor =
    starts_with-append vendor_prefix (category ++ colon ∷ vendor)

vendor_name-ne-gateway :
    (category vendor : Text) → text_eq (vendor_name category vendor) gateway_name ≡ false
unfolding vendor_name text_eq
vendor_name-ne-gateway category vendor = refl

split_vendor-vendor_name :
    (category vendor : Text)
    → has_char colon category ≡ false
    → split_vendor (vendor_name category vendor) ≡ some vendor
unfolding split_vendor
split_vendor-vendor_name category vendor h = rw (
  has_char-vendor_name category vendor,
  after-vendor_name category vendor,
  has_char-append category vendor,
  after-append colon category vendor h,
)

-- Where the category holds no colon, the circuit that is named after a category and a vendor is
-- relevant to a set of vendors exactly when the set has the vendor.
pub is_relevant-vendor_name :
    (category vendor : Text) (vendors : List Text)
    → has_char colon category ≡ false
    → is_relevant (vendor_name category vendor) (some vendors) ≡ some (any (text_eq vendor) vendors)
unfolding is_relevant
is_relevant-vendor_name category vendor vendors h = rw (
  vendor_name-ne-gateway category vendor,
  starts_with-vendor_name category vendor,
  split_vendor-vendor_name category vendor h,
)
