-- ===== src/HttpSig/Parse.antt =====
-- ParseSignatureHeader of httpsig.go reads back what SignRequest writes.
use mathlib.Core.Path.{ap₂}
use mathlib.Core.List.{append-nil}
use mkqd.Base.{
  ◌≡◌, ◌≢◌, refl, sym, ap, ◌∙◌, false, some, List, [], ◌∷◌, ◌++◌, Bytes, codes, arith, is_empty,
  bytes_eq, trim, is_space,
}
use mkqd.HttpSig.Header.{
  ParsedSignature, joined, quoted, param, format_signature, split_from, split_params, assign,
  read_param, read_params, no_fields, complete, parse_signature_header, fields_from, cut_equals,
}
use mkqd.HttpSig.Params.{NoQuote, IsPlain, split_param, split_comma, unquote-quoted}

split_last :
    (name v : Bytes)
    → IsPlain name
    → NoQuote v
    → name ≢ []
    → split_from false [] (param name v) ≡ param name v ∷ []
split_last [] v n q ne = absurd (ne refl)
split_last (c ∷ name) v n q ne =
    ap (split_from false []) (sym (append-nil (param (c ∷ name) v)))
    ∙ split_param (c ∷ name) v [] n q
    ∙ unfold split_from in refl

split_next :
    (name v rest : Bytes)
    → IsPlain name
    → NoQuote v
    → split_from false [] (param name v ++ (b',' ∷ rest)) ≡ param name v ∷ split_from false [] rest
split_next name v rest n q = split_param name v (b',' ∷ rest) n q ∙ split_comma (param name v) rest

IsPlain-names :
    IsPlain (codes "keyId")
    × IsPlain (codes "algorithm")
    × IsPlain (codes "headers")
    × IsPlain (codes "signature")
IsPlain-names = (omega arith, omega arith, omega arith, omega arith)

module _ (key_id algorithm : Bytes) (headers : List Bytes) (signature : Bytes) (qk : NoQuote key_id)
    (qa : NoQuote algorithm) (qh : NoQuote (joined headers)) (qs : NoQuote signature) where
  -- The four parameters come apart at the commas between them.
  format_split :
      split_params (format_signature key_id algorithm headers signature)
      ≡ param (codes "keyId") key_id
        ∷ param (codes "algorithm") algorithm
        ∷ param (codes "headers") (joined headers)
        ∷ param (codes "signature") signature
        ∷ []
  unfolding split_params format_signature
  format_split =
      split_next (codes "keyId") key_id _ IsPlain-names.0 qk
      ∙ ap (◌∷◌ (param (codes "keyId") key_id)) (
          split_next (codes "algorithm") algorithm _ IsPlain-names.1 qa
          ∙ ap (◌∷◌ (param (codes "algorithm") algorithm)) (
              split_next (codes "headers") (joined headers) _ IsPlain-names.2 qh
              ∙ ap (◌∷◌ (param (codes "headers") (joined headers)))
                  (split_last (codes "signature") signature IsPlain-names.3 qs (cc))))

read_param-quoted :
    (name v : Bytes) (out : ParsedSignature)
    → NoQuote v
    → cut_equals (param name v) ≡ some (name, quoted v)
    → trim is_space name ≡ name
    → read_param (param name v) out ≡ assign name v out
unfolding read_param
read_param-quoted name v out q e t =
    rw (e, read_param) (ap₂ (λ (k w : Bytes). assign k w out) t (unquote-quoted v q))

module _ (v : Bytes) (out : ParsedSignature) (q : NoQuote v) where
  read_key_id : read_param (param (codes "keyId") v) out ≡ record out { key_id = v }
  unfolding cut_equals trim is_space assign bytes_eq
  read_key_id = read_param-quoted (codes "keyId") v out q refl refl

  read_algorithm : read_param (param (codes "algorithm") v) out ≡ record out { algorithm = v }
  unfolding cut_equals trim is_space assign bytes_eq
  read_algorithm = read_param-quoted (codes "algorithm") v out q refl refl

  read_headers :
      read_param (param (codes "headers") v) out ≡ record out { headers = fields_from [] v }
  unfolding cut_equals trim is_space assign bytes_eq
  read_headers = read_param-quoted (codes "headers") v out q refl refl

  read_signature : read_param (param (codes "signature") v) out ≡ record out { signature = v }
  unfolding cut_equals trim is_space assign bytes_eq
  read_signature = read_param-quoted (codes "signature") v out q refl refl

format-ne-empty :
    (k a : Bytes) (hs : List Bytes) (s : Bytes) → is_empty (format_signature k a hs s) ≡ false
unfolding format_signature
format-ne-empty k a hs s = refl

complete_full :
    (k a s : Bytes) (hs : List Bytes)
    → k ≢ []
    → s ≢ []
    → hs ≢ []
    → complete (record { key_id = k; algorithm = a; headers = hs; signature = s })
      ≡ some (record { key_id = k; algorithm = a; headers = hs; signature = s })
unfolding complete
complete_full k a s hs nk ns nh = ground arith

-- The header that SignRequest writes is read back, if no value holds a double quote, the key and
-- the signature are not empty, and the list of headers is not empty and survives joining by spaces.
pub parse-format_signature :
    (key_id algorithm : Bytes) (headers : List Bytes) (signature : Bytes)
    → NoQuote key_id
    → NoQuote algorithm
    → NoQuote (joined headers)
    → NoQuote signature
    → key_id ≢ []
    → signature ≢ []
    → headers ≢ []
    → fields_from [] (joined headers) ≡ headers
    → parse_signature_header (format_signature key_id algorithm headers signature)
      ≡ some (record {
        key_id = key_id;
        algorithm = algorithm;
        headers = headers;
        signature = signature;
      })
unfolding parse_signature_header read_params
parse-format_signature k a hs s qk qa qh qs nk ns nh f =
    rw (format-ne-empty k a hs s, format_split k a hs s qk qa qh qs)
      (rw (read_key_id k no_fields qk) (
        rw (read_algorithm a _ qa) (
          rw (read_headers (joined hs) _ qh)
            (rw (read_signature s _ qs, f) (complete_full k a s hs nk ns nh)))))
