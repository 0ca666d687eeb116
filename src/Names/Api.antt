-- ===== src/Names/Api.antt =====
-- thirdpart/https/BackCodeSet.h: the codes that the API answers with, against those of
-- public/errorCode.h, which has the same names.
use text.Mathlib.Text.{◌==◌ as str_eq}
use cppserver.Prelude.{
  ◌≡◌, refl, Bool, List, [], ◌∷◌, Option, none, some, String, length, if◌then◌else◌,
}
use cppserver.Prelude.Int.{ℤ, pos, negsuc}
use cppserver.Prelude.Maps.{beq_ℤ}
use cppserver.Names.{Row, after, rows_from}
use cppserver.Names.Errors.{errorcode_map}

-- `eApiErrorCode`.
unfoldable pub api_error_codes : List (String × ℤ)
api_error_codes =
    ("NoError", pos 0)
    ∷ ("InsideErrorOrNonExcutive", negsuc 0)
    ∷ ("GameHandleProxyIDError", negsuc 1)
    ∷ ("GameHandleProxyMD5CodeError", negsuc 2)
    ∷ ("GameHandleProxyDESCodeError", negsuc 3)
    ∷ ("GameHandleParamsError", negsuc 4)
    ∷ ("GameHandleOperationTypeError", negsuc 5)
    ∷ ("GameHandleUserNotExistsError", negsuc 6)
    ∷ ("GameHandleUserLineCodeNull", negsuc 7)
    ∷ ("GameHandleUserLineCodeNotExists", negsuc 8)
    ∷ ("GameHandleRequestInvalidation", negsuc 9)
    ∷ ("GameUserHandleCreateUserError", pos 11)
    ∷ ("GameUserHandleUpdateUserError", pos 12)
    ∷ ("GameUserHandleUserAccountStatusError", pos 13)
    ∷ ("GameUserHandleUserLoginLogError", pos 14)
    ∷ ("GameUserHandleUserRedisWriteError", pos 15)
    ∷ ("GameUserHandleUseAccountNullError", pos 16)
    ∷ ("GameUserHandleUseAccountNotExistsError", pos 17)
    ∷ ("GameUserHandleUseAccountIsExistsError", pos 18)
    ∷ ("GameCardValueWriteError", pos 19)
    ∷ ("CanSubScoreCheckNoError", pos 0)
    ∷ ("CanSubScoreUserAccountNotExistsError", pos 21)
    ∷ ("AddScoreHandleUserNotExistsError", pos 31)
    ∷ ("AddScoreHandleInsertDataError", pos 32)
    ∷ ("AddScoreHandleInsertDataOrderIDExists", pos 33)
    ∷ ("AddScoreHandleInsertDataUserInGaming", pos 34)
    ∷ ("AddScoreHandleInsertDataOverScore", pos 35)
    ∷ ("AddScoreHandleInsertDataOutTime", pos 36)
    ∷ ("SubScoreHandleUserNotExistsError", pos 41)
    ∷ ("SubScoreHandleInsertDataError", pos 42)
    ∷ ("SubScoreHandleInsertOrderIDExists", pos 43)
    ∷ ("SubScoreHandleInsertDataUserInGaming", pos 44)
    ∷ ("SubScoreHandleInsertDataOverScore", pos 45)
    ∷ ("SubScoreHandleInsertDataOutTime", pos 46)
    ∷ ("SubScoreHandleInsertDataUserJoiningGame", pos 47)
    ∷ ("OrderScoreCheckUserNotExistsError", pos 51)
    ∷ ("OrderScoreCheckOrderNotExistsError", pos 52)
    ∷ ("OrderScoreCheckDataError", pos 53)
    ∷ ("UserStatusCheckUserNotExistsError", pos 61)
    ∷ ("UserStatusCheckDataError", pos 62)
    ∷ ("UserInfoCheckUserNotExistsError", pos 71)
    ∷ ("UserInfoCheckDataError", pos 72)
    ∷ ("KickOutGameUserOffLineUserNotExistsError", pos 91)
    ∷ ("KickOutGameUserOffLineError", pos 92)
    ∷ ("KickOutGameUserOffLineUserAccountError", pos 93)
    ∷ ("GameRecordGetNoDataError", pos 101)
    ∷ []

-- The code of a name.
code_of : String → List Row → Option ℤ
code_of name [] = none
code_of name (r ∷ rows) = if str_eq r.name name then some r.id else code_of name rows

-- The names that both enumerations have, with whether they give them one code.
compared : List (String × ℤ) → List Row → List (String × Bool)
compared [] rows = []
compared ((name, code) ∷ codes) rows = elim (code_of name rows) [
  | none ↦ compared codes rows
  | some other ↦ (name, beq_ℤ code other) ∷ compared codes rows
]

agreeing : List (String × Bool) → List String
agreeing [] = []
agreeing ((name, same) ∷ rest) = if same then name ∷ agreeing rest else agreeing rest

-- Of the 26 names that both have, two stand for one code.
shared_names : length (compared api_error_codes (rows_from "" (pos 0) errorcode_map)) ≡ 26
unfolding compared code_of api_error_codes errorcode_map rows_from after
shared_names = refl

same_codes :
    agreeing (compared api_error_codes (rows_from "" (pos 0) errorcode_map))
    ≡ "AddScoreHandleInsertDataError" ∷ "KickOutGameUserOffLineUserAccountError" ∷ []
unfolding agreeing compared code_of api_error_codes errorcode_map rows_from after
same_codes = refl
