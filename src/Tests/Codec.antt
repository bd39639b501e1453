-- ===== src/Tests/Codec.antt =====
-- In place of base64: a code that writes a byte as so many letters and an end.
use xmrgateway.Prelude.{
  ℕ, ◌+◌, ◌≡◌, refl, ap, ◌∙◌, zero, suc, String, List, [], ◌∷◌, if◌then◌else◌, nat_beq, ok, arith,
}
use Prim.Native.Char.{Char, char, code}
use xmrgateway.Server.InvoiceIds.{Base64}

abbrev pub tick : Char
tick = char 97 tt

abbrev pub end : Char
end = char 98 tt

abbrev pub spell : ℕ → String → String
spell zero rest = String.◌∷◌ end rest
spell (suc n) rest = String.◌∷◌ tick (spell n rest)

abbrev pub write : List ℕ → String
write [] = String.[]
write (b ∷ bytes) = spell b (write bytes)

abbrev pub read : String → ℕ → List ℕ
read String.[] n = []
read (String.◌∷◌ c s) n = if nat_beq (code c) 97 then read s (suc n) else n ∷ read s 0

pub read-spell : (n k : ℕ) (rest : String) → read (spell n rest) k ≡ (k + n) ∷ read rest 0
read-spell zero k rest = ap (λ m. m ∷ read rest 0) (omega arith)
read-spell (suc n) k rest = read-spell n (suc k) rest ∙ ap (λ m. m ∷ read rest 0) (omega arith)

pub read-write : (bytes : List ℕ) → read (write bytes) 0 ≡ bytes
read-write [] = refl
read-write (b ∷ bytes) =
    read-spell b 0 (write bytes)
    ∙ ap (λ m. m ∷ read (write bytes) 0) (omega arith)
    ∙ ap (λ l. b ∷ l) (read-write bytes)

abbrev pub codec : Base64
codec = record {
  DecodeError = Unit {0};
  encode = write;
  decode = λ s. ok (read s 0);
  decode-encode = λ bytes h. ap ok (read-write bytes);
}
