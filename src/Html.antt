-- ===== src/Html.antt =====
-- thirdpart/https/htmlcodec.h: the table of characters and their marks, `Encode` and `Decode`. A
-- text is its list of characters, as numbers: the source's texts are UTF-8, where the bytes of
-- one character never begin inside another. `boost::replace_all` is a parameter.
pub mod Escape
pub mod Roundtrip
use Prim.Native.Char.{code}
use Prim.Native.String.{String}
use cppserver.Prelude.{ℕ, ◌≡◌, ◌==◌, ◌&&◌, Bool, true, false, List, [], ◌∷◌, ◌++◌, if◌then◌else◌}

abbrev pub chars : String → List ℕ
chars String.[] = []
chars (String.◌∷◌ c s) = code c ∷ chars s

abbrev pub starts_with : List ℕ → List ℕ → Bool
starts_with [] s = true
starts_with (c ∷ p) [] = false
starts_with (c ∷ p) (d ∷ s) = c == d && starts_with p s

-- `boost::replace_all(s, src, dst)`: from the left, every occurrence of `src` that does not overlap
-- the one before it becomes `dst`, and what was put in is not read again.
pub record Replace : Type 0 where
  pub replace_all : List ℕ → List ℕ → List ℕ → List ℕ
  pub at_end : (c : ℕ) (p dst : List ℕ) → replace_all [] (c ∷ p) dst ≡ []
  pub at_match :
      (c : ℕ) (p dst rest : List ℕ)
      → replace_all (c ∷ (p ++ rest)) (c ∷ p) dst ≡ dst ++ replace_all rest (c ∷ p) dst
  pub at_other :
      (c : ℕ) (p dst : List ℕ) (d : ℕ) (rest : List ℕ)
      → starts_with (c ∷ p) (d ∷ rest) ≡ false
      → replace_all (d ∷ rest) (c ∷ p) dst ≡ d ∷ replace_all rest (c ∷ p) dst

-- `replace_t`.
pub record Code : Type 0 where
  pub src : List ℕ
  pub dst : List ℕ

abbrev pub row : String → String → Code
row s d = record { src = chars s; dst = chars d }

unfoldable pub codes : List Code
codes =
    row "&" "&amp;"
    ∷ row "<" "&lt;"
    ∷ row ">" "&gt;"
    ∷ row "\"" "&quot;"
    ∷ row "'" "&apos;"
    ∷ row " " "&nbsp;"
    ∷ row "©" "&copy;"
    ∷ row "′" "&prime;"
    ∷ row "″" "&Prime;"
    ∷ row "−" "&minus;"
    ∷ row "÷" "&divide;"
    ∷ row "∧" "&and;"
    ∷ row "∨" "&or;"
    ∷ row "⊥" "&perp;"
    ∷ row "–" "&ndash;"
    ∷ row "—" "&mdash;"
    ∷ row "‘" "&lsquo;"
    ∷ row "’" "&rsquo;"
    ∷ row "‚" "&sbquo;"
    ∷ row "“" "&ldquo;"
    ∷ row "”" "&rdquo;"
    ∷ row "„" "&bdquo;"
    ∷ []

module _ (b : Replace) where
  open b use {replace_all}

  -- The loops of `Encode` and `Decode`, over a table.
  unfoldable pub encode_by : List Code → List ℕ → List ℕ
  encode_by [] rs = rs
  encode_by (e ∷ es) rs = encode_by es (replace_all rs e.src e.dst)

  unfoldable pub decode_by : List Code → List ℕ → List ℕ
  decode_by [] rs = rs
  decode_by (e ∷ es) rs = decode_by es (replace_all rs e.dst e.src)

  unfoldable pub encode : List ℕ → List ℕ
  encode s = encode_by codes s

  unfoldable pub decode : List ℕ → List ℕ
  decode s = decode_by codes s
