-- ===== src/Tests/Tools.antt =====
-- Tests of the models of Framework/game_tracemsg and of thirdpart/https/aes.h.
use Prim.Native.String.{◌++◌ as str_append}
use cppserver.Prelude.{
  ℕ, ◌==◌, true, ◌≡◌, refl, false, List, [], ◌∷◌, some, String, if◌then◌else◌, replicate, arith,
}
use cppserver.Prelude.Maps.{string_key}
use cppserver.Trace.{Message, str_message_id, no_message, fmt_message_id, to_hall}
use cppserver.Trace.Lookup.{is_quiet, line, fmt_message_id-eq}
use cppserver.Crypto.Aes.{Library as AesLibrary, c_string, aes_encrypt, aes_decrypt}
use cppserver.Crypto.Aes.Roundtrip.{Works as AesWorks, aes_decrypt-aes_encrypt}
use cppserver.Crypto.Des.{Library, des_encrypt, des_decrypt}
use cppserver.Crypto.Des.Blocks.{Works}
use cppserver.Crypto.Des.Roundtrip.{des_decrypt-des_encrypt}

abbrev ids : String → ℕ
ids s = if string_key.beq s to_hall then 2 else 9

abbrev message : Message
message = str_message_id ids false false 2 5 no_message

fmt_message_id-eq_example : fmt_message_id ids "old" false false 2 5 ≡ (
  (if is_quiet ids false false 2 5
      then "old"
      else str_append "\n" (
          str_append
            (line message.main_id message.main_desc)
            (str_append "\n" (line message.sub_id message.sub_desc)))),
  message.level,
)
fmt_message_id-eq_example = fmt_message_id-eq ids "old" false false 2 5

-- A cipher and a codec that change nothing.
abbrev plain : Library
plain = record { encrypt = λ key b. b; decrypt = λ key b. b; encode = λ bs. bs; decode = λ bs. bs }

plain-Works : Works plain
plain-Works = record {
  cipher_block = λ key b eight bytes. (eight, bytes);
  cipher_inverse = λ key b eight bytes. refl;
  codec_inverse = λ bs bytes. refl;
}

abbrev key : List ℕ
key = 1 ∷ 2 ∷ 3 ∷ 4 ∷ 5 ∷ 6 ∷ 7 ∷ 8 ∷ []

des_decrypt-des_encrypt_example :
    (code : List ℕ) × (des_encrypt plain (104 ∷ 105 ∷ []) key ≡ some code)
    × (des_decrypt plain code key ≡ some (104 ∷ 105 ∷ []))
des_decrypt-des_encrypt_example =
    des_decrypt-des_encrypt plain (104 ∷ 105 ∷ []) key plain-Works
      ((omega arith), ((omega arith), tt)) (omega arith) (omega arith)

abbrev plain_aes : AesLibrary
plain_aes = record {
  set_key = λ key bits. bits == 128;
  encrypt = λ key b. b;
  decrypt = λ key b. b;
  encode = λ bs. bs;
  decode = λ bs. bs;
  matches = λ bs. true;
}

plain_aes-Works : AesWorks plain_aes (replicate 16 48)
plain_aes-Works = record {
  accepts = refl;
  cipher_inverse = λ b sixteen bytes. (sixteen, bytes, refl);
  codec_inverse = λ bs bytes. refl;
}

aes_decrypt-aes_encrypt_example :
    (code : List ℕ) × (aes_encrypt plain_aes (104 ∷ 105 ∷ []) (replicate 16 48) ≡ some code)
    × (aes_decrypt true plain_aes code (replicate 16 48) ≡ some (104 ∷ 105 ∷ []))
unfolding c_string
aes_decrypt-aes_encrypt_example =
    aes_decrypt-aes_encrypt plain_aes (104 ∷ 105 ∷ []) (replicate 16 48) plain_aes-Works refl refl
      ((omega arith), ((omega arith), tt)) ((omega arith), ((omega arith), tt)) (omega arith)
      (omega arith) refl
