-- ===== src/Uid.antt =====
-- atsuite/uid_strategy.py: the uid of a request.
use text.Mathlib.TextLemmas.{append_cancel_left}
use atsuite.Base.{
  ℕ, ◌≡◌, ◌≢◌, String, true, Option, none, some, ◌==◌, string_eq, if◌then◌else◌, arith,
}
use atsuite.Base.Text.{◌&◌, is_empty, fold_case, show, take, show_injective}
use atsuite.Result.{Result, ok, err, missing_uid_fixed, unsupported_uid_mode, ok_injective}

-- `if not uid_fixed: raise …; return uid_fixed`
unfoldable pub fixed_uid : Option String → Result String
fixed_uid none = err missing_uid_fixed
fixed_uid (some uid) = if is_empty uid then err missing_uid_fixed else ok uid

-- build_request_uid
unfoldable pub build_request_uid : String → ℕ → String → Option String → String → Result String
unfolding fixed_uid take
build_request_uid uid_prefix index uid_mode uid_fixed uuid_hex =
    let mode = fold_case uid_mode in
    if mode == "index"
    then ok (uid_prefix & "_" & show index)
    else if mode == "fixed"
    then fixed_uid uid_fixed
    else if mode == "random"
    then ok (uid_prefix & "_" & show index & "_" & take 8 uuid_hex)
    else err (unsupported_uid_mode uid_mode)

-- In index mode, requests of one prefix with different indices have different uids.
pub build_request_uid-distinct :
    (uid_prefix : String) (m n : ℕ) (uid_mode : String) (uid_fixed : Option String)
    (uuid_hex other_hex : String)
    → fold_case uid_mode ≡ "index"
    → m ≢ n
    → build_request_uid uid_prefix m uid_mode uid_fixed uuid_hex
      ≢ build_request_uid uid_prefix n uid_mode uid_fixed other_hex
unfolding build_request_uid
build_request_uid-distinct uid_prefix m n uid_mode uid_fixed uuid_hex other_hex mode other h =
    let index : (fold_case uid_mode == "index") ≡ true = ground (arith, mode) in
    let same : (uid_prefix & "_" & show m) ≡ (uid_prefix & "_" & show n) =
      ok_injective (rw index at h) in
    other (
      show_injective m n (
        append_cancel_left "_" (show m) (show n)
          (append_cancel_left uid_prefix ("_" & show m) ("_" & show n) same)))
