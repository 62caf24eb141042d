-- ===== src/Transaction/KiosbankRequest.antt =====
-- The free fields of a request for Kiosbank: mergeAnyMap, stringValue, stringFromKeys and
-- normalizeKiosbankRequestData of internal/service/provider_kiosbank.go. A map is a list in which
-- each key stands once.
use gtd_api.Prelude.{suc, String, List, [], ◌∷◌, str_eq, if◌then◌else◌}
use gtd_api.Prelude.Int.{ℤ, pos, negsuc}
use gtd_api.Prelude.Text.{trim_space}
use gtd_api.Ppob.Model.{ExtraValue, number, text, opaque}
use gtd_api.Transaction.Store.{Env}
use Prim.Native.String.{◌++◌ as ◌<>◌}

abbrev pub Extra : Type 0
Extra = List (String × ExtraValue)

unfoldable pub set_key : String → ExtraValue → Extra → Extra
set_key k v [] = (k, v) ∷ []
set_key k v ((j, w) ∷ rest) = if str_eq j k then (k, v) ∷ rest else (j, w) ∷ set_key k v rest

unfoldable pub merge_extra : Extra → Extra → Extra
unfolding set_key
merge_extra dst [] = dst
merge_extra dst ((k, v) ∷ rest) = merge_extra (set_key k v dst) rest

abbrev itoa : Env → ℤ → String
itoa env (pos n) = env.decimal n
itoa env (negsuc n) = "-" <> env.decimal (suc n)

unfoldable pub string_value : Env → ExtraValue → String
unfolding trim_space
string_value env (text s) = trim_space s
string_value env (number n) = itoa env n
string_value env (opaque json) = env.opaque_text json

-- stringValue of a key's value, where a missing key has none.
unfoldable pub value_at : Env → String → Extra → String
unfolding string_value
value_at env k [] = ""
value_at env k ((j, v) ∷ rest) = if str_eq j k then string_value env v else value_at env k rest

unfoldable pub string_from_keys : Env → List String → Extra → String
unfolding value_at
string_from_keys env [] extra = ""
string_from_keys env (k ∷ rest) extra =
    let later = string_from_keys env rest extra in
    if str_eq (value_at env k extra) "" then later else value_at env k extra

unfoldable pub set_keys : List String → String → Extra → Extra
unfolding set_key
set_keys [] s extra = extra
set_keys (k ∷ rest) s extra = set_keys rest s (set_key k (text s) extra)

-- The first text under the keys, under each of them.
unfoldable pub spread : Env → List String → Extra → Extra
unfolding string_from_keys set_keys
spread env keys extra =
    let s = string_from_keys env keys extra in if str_eq s "" then extra else set_keys keys s extra

unfoldable pub normalize_kiosbank_request_data : Env → Extra → Extra
unfolding spread
normalize_kiosbank_request_data env extra =
    let dated = spread env ("periode" ∷ []) extra in
    let phoned = spread env ("noHandphone" ∷ "noHanphone" ∷ []) dated in
    spread env ("kode" ∷ []) (spread env ("nama" ∷ []) phoned)
