-- ===== src/Examples/Codecs.antt =====
-- A concrete codec in the place of JSON: each character is marked, as are the end of a text and the
-- end of the list.
use Prim.Native.Char.{Char, code}
use Prim.Native.String.{[] as empty_text, ◌∷◌ as text_cons}
use mathlib.Core.Option.{some-injective}
use research_monitor.Base.{
  ℕ, ◌∙◌, ◌≡◌, refl, sym, ap, String, List, [], ◌∷◌, Option, none, some, ◌==◌, if◌then◌else◌, ◌>>=◌,
}
use research_monitor.Extraction.Types.{RequestPayload}
use research_monitor.Extraction.Row.{Codec}
use research_monitor.Paper.Catalogue.{ListCodec}

abbrev pub encode_text : String → String → String
encode_text empty_text rest = text_cons "n" rest
encode_text (text_cons c s) rest = text_cons "c" (text_cons c (encode_text s rest))

abbrev pub encode : List String → String
encode [] = "e"
encode (s ∷ ss) = encode_text s (encode ss)

abbrev prepend : Char → List String → List String
prepend c [] = []
prepend c (s ∷ ss) = text_cons c s ∷ ss

abbrev under_mark : ℕ → Option (List String) → Option (List String) → Option (List String)
under_mark m plain literal =
    if m == b'e' then some [] else if m == b'n' then (do ss ← plain; some ("" ∷ ss)) else literal

-- What a text decodes to where a mark is due, and where a marked character is.
abbrev pub decode_both : String → Option (List String) × Option (List String)
decode_both empty_text = (none, none)
decode_both (text_cons c s) =
    let (plain, literal) = decode_both s in
    (under_mark (code c) plain literal, (do ss ← plain; some (prepend c ss)))

abbrev pub decode : String → Option (List String)
decode s = (decode_both s).0

decode-encode_text :
    (s rest : String) (ss : List String)
    → decode rest ≡ some ss
    → decode (encode_text s rest) ≡ some (s ∷ ss)
decode-encode_text empty_text rest ss h = rw h
decode-encode_text (text_cons c s) rest ss h = rw (decode-encode_text s rest ss h)

pub decode-encode : (ss : List String) → decode (encode ss) ≡ some ss
decode-encode [] = refl
decode-encode (s ∷ ss) = decode-encode_text s (encode ss) ss (decode-encode ss)

pub decoded : (ss : List String) (s : String) → some (encode ss) ≡ some s → decode s ≡ some ss
decoded ss s h = ap decode (sym (some-injective _ _ h)) ∙ decode-encode ss

abbrev pub payload_of : List String → Option RequestPayload
payload_of (a ∷ (b ∷ (c ∷ []))) = some (record { source_type = a; source_id = b; pdf_path = c })
payload_of _ = none

abbrev pub fields : RequestPayload → List String
fields p = p.source_type ∷ (p.source_id ∷ (p.pdf_path ∷ []))

pub payload_decoded :
    (p : RequestPayload) (s : String)
    → some (encode (fields p)) ≡ some s
    → (decode s >>= payload_of) ≡ some p
payload_decoded p s h = rw (decoded (fields p) s h) refl

abbrev pub payload_codec : Codec
payload_codec = record {
  marshal = λ p. some (encode (fields p));
  unmarshal = λ s. decode s >>= payload_of;
  marshal-some = λ p. (encode (fields p), refl);
  unmarshal-marshal = payload_decoded;
}

abbrev pub list_codec : ListCodec
list_codec = record {
  marshal = λ ss. some (encode ss);
  unmarshal = decode;
  marshal-some = λ ss. (encode ss, refl);
  unmarshal-marshal = λ ss s h. decoded ss s h;
}
