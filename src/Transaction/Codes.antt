-- ===== src/Transaction/Codes.antt =====
-- The response codes of the providers: pkg/digiflazz/rc_codes.go, and ClassifyRC and the tests of
-- pkg/kiosbank/rc_codes.go and pkg/alterra/rc_codes.go.
use gtd_api.Prelude.{
  String, Bool, false, not, ◌&&◌, ◌||◌, List, [], ◌∷◌, any, str_eq, if◌then◌else◌,
}

abbrev pub listed : List String → String → Bool
listed codes rc = any (λ code. str_eq code rc) codes

unfoldable pub fatal_rcs : List String
fatal_rcs =
    "40" ∷ "41" ∷ "42" ∷ "44" ∷ "45" ∷ "47" ∷ "50" ∷ "51" ∷ "54" ∷ "57" ∷ "60" ∷ "61" ∷ "64" ∷ "67"
    ∷ "72" ∷ "73" ∷ "74" ∷ "82" ∷ "84" ∷ "87" ∷ []

unfoldable pub retryable_switch_rcs : List String
retryable_switch_rcs =
    "01" ∷ "02" ∷ "43" ∷ "49" ∷ "52" ∷ "53" ∷ "55" ∷ "56" ∷ "58" ∷ "59" ∷ "62" ∷ "63" ∷ "65" ∷ "66"
    ∷ "68" ∷ "69" ∷ "70" ∷ "71" ∷ "80" ∷ "81" ∷ []

unfoldable pub retryable_wait_rcs : List String
retryable_wait_rcs = "85" ∷ "86" ∷ []

unfoldable pub pending_rcs : List String
pending_rcs = "03" ∷ "99" ∷ []

unfoldable pub is_success : String → Bool
is_success rc = str_eq rc "00"

unfoldable pub is_pending : String → Bool
unfolding pending_rcs
is_pending rc = listed pending_rcs rc

unfoldable pub is_fatal : String → Bool
unfolding fatal_rcs
is_fatal rc = listed fatal_rcs rc

unfoldable pub needs_new_ref_id : String → Bool
needs_new_ref_id rc = str_eq rc "49"

unfoldable pub is_retryable_wait : String → Bool
unfolding retryable_wait_rcs
is_retryable_wait rc = listed retryable_wait_rcs rc

unfoldable pub is_retryable_switch_sku : String → Bool
unfolding retryable_switch_rcs
is_retryable_switch_sku rc = listed retryable_switch_rcs rc

unfoldable pub is_retryable : String → Bool
unfolding is_retryable_switch_sku is_retryable_wait
is_retryable rc = is_retryable_switch_sku rc || is_retryable_wait rc

-- The phases in which a provider answers.
pub data Phase : Type 0 where
  inquiry_phase initial_payment async : Phase

pub data ResponseClass : Type 0 where
  success_class pending_class failed_class : ResponseClass

unfoldable pub initial_payment_pending_codes : List String
initial_payment_pending_codes =
    "01" ∷ "03" ∷ "04" ∷ "05" ∷ "14" ∷ "19" ∷ "38" ∷ "39" ∷ "67" ∷ "71" ∷ []

-- ClassifyRC of pkg/kiosbank.
unfoldable pub classify_rc : String → Phase → ResponseClass
unfolding initial_payment_pending_codes
classify_rc rc inquiry_phase = if str_eq rc "00" then success_class else failed_class
classify_rc rc async =
    if str_eq rc "00" then success_class else if str_eq rc "17" then failed_class else pending_class
classify_rc rc initial_payment =
    if str_eq rc "00"
    then success_class
    else if listed initial_payment_pending_codes rc
    then pending_class
    else failed_class

unfoldable pub alterra_is_success : String → Bool
alterra_is_success rc = str_eq rc "00"

unfoldable pub alterra_is_pending : String → Bool
alterra_is_pending rc = str_eq rc "10"

unfoldable pub alterra_is_fatal : String → Bool
unfolding alterra_is_success alterra_is_pending
alterra_is_fatal rc =
    if str_eq rc "" then false else not (alterra_is_success rc) && not (alterra_is_pending rc)

described_in : List (String × String) → String → String
described_in [] rc = "Unknown error"
described_in ((code, description) ∷ rest) rc =
    if str_eq code rc then description else described_in rest rc

unfoldable pub kiosbank_descriptions : List (String × String)
kiosbank_descriptions =
    ("00", "Transaksi berhasil")
    ∷ ("01", "Error tidak terdefinisi")
    ∷ ("02", "Format message salah")
    ∷ ("03", "Tidak diresponse oleh biller")
    ∷ ("04", "No response from biller")
    ∷ ("05", "No response from host")
    ∷ ("10", "Transaksi tidak dapat dilakukan")
    ∷ ("12", "Saldo tidak mencukupi")
    ∷ ("14", "Kendala media penyimpanan")
    ∷ ("15", "Produk tidak dikenal")
    ∷ ("17", "Transaksi gagal")
    ∷ ("18", "Switching hulu belum registrasi")
    ∷ ("19", "Data tidak ditemukan")
    ∷ ("27", "Transaksi tidak dapat dilakukan")
    ∷ ("34", "Session expired")
    ∷ ("37", "Error setting admin bank")
    ∷ ("38", "Link ke biller terputus")
    ∷ ("39", "Timeout from biller")
    ∷ ("40", "Jenis message tidak dikenal")
    ∷ ("41", "Tidak diperbolehkan transaksi produk ini")
    ∷ ("42", "Harga jual tidak valid")
    ∷ ("46", "Transaksi sudah kadaluwarsa")
    ∷ ("60", "Bayar di kantor PDAM")
    ∷ ("61", "Harus inquiry terlebih dahulu")
    ∷ ("62", "Tagihan baru belum tersedia")
    ∷ ("64", "Tagihan sudah terbayar")
    ∷ ("65", "Nomor pelanggan salah")
    ∷ ("67", "Kegagalan saat proses transaksi")
    ∷ ("68", "Limit transaksi per hari tercapai")
    ∷ ("69", "Nomor tidak diperbolehkan transaksi")
    ∷ ("70", "Nominal pembayaran salah")
    ∷ ("71", "Transaksi sedang diproses")
    ∷ ("72", "Pembayaran melebihi batas maksimal")
    ∷ ("73", "Kegagalan routing transaksi")
    ∷ ("74", "Transaksi sudah lunas")
    ∷ ("75", "Jeda minimal 10 menit untuk nominal sama")
    ∷ ("78", "Nomor sudah kadaluwarsa")
    ∷ ("79", "Tunggakan melebihi maksimal")
    ∷ ("80", "Data tidak tersedia atau sudah lunas")
    ∷ ("83", "Nomor sedang diblokir")
    ∷ ("85", "Sedang dalam masa cut off")
    ∷ ("86", "Kode referensi sudah digunakan")
    ∷ []

-- GetRCDescription of pkg/kiosbank.
unfoldable pub kiosbank_description : String → String
unfolding described_in kiosbank_descriptions
kiosbank_description rc = described_in kiosbank_descriptions rc

unfoldable pub alterra_descriptions : List (String × String)
alterra_descriptions =
    ("00", "Transaction successful")
    ∷ ("10", "Transaction is being processed")
    ∷ ("20", "Wrong Number/Blocked/Expired")
    ∷ ("21", "Product Issue")
    ∷ ("22", "Duplicate Transactions")
    ∷ ("23", "Connection Timeout")
    ∷ ("24", "Provider Cutoff")
    ∷ ("25", "KWH Overlimit")
    ∷ ("26", "Payment Overlimit")
    ∷ ("50", "Bill Already Paid/Not Available")
    ∷ ("51", "Invalid Inquiry Amount/No Inquiry Found")
    ∷ ("98", "Order Canceled by Ops")
    ∷ ("99", "General Error")
    ∷ []

-- GetRCDescription of pkg/alterra.
unfoldable pub alterra_description : String → String
unfolding described_in alterra_descriptions
alterra_description rc = described_in alterra_descriptions rc
