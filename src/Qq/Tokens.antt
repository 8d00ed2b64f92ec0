-- ===== src/Qq/Tokens.antt =====
-- internal/qqbot/token.go: the access tokens of the QQ platform, and their cache. An instant is in
-- nanoseconds, and so is a time to live.
pub mod Reuse
use Prim.Native.String.{◌++◌}
use ycfrp.Base.{
  ℕ, zero, suc, ◌+◌, ◌-◌, ◌*◌, String, Char, code, Bool, true, false, not, ◌&&◌, ◌||◌, Option, none,
  some, List, [], ◌∷◌, ℤ, pos, negsuc, itoa, ltb, eqb, eqb_ℤ, ◌==◌, if◌then◌else◌, trim_space,
  Assoc, lookup, insert, remove,
}

-- `cachedToken`
pub record CachedToken : Type 0 where
  pub token : String
  pub expires : ℕ

-- what the platform answers, decoded, with the text that it was
pub record Body : Type 0 where
  pub access_token : String
  pub expires_in : String
  pub code_ : ℤ
  pub message : String
  pub data_ : String

-- how the request ends; the texts are those of Go's errors
pub data Reply : Type 0 where
  not_made not_sent unread not_decoded : String → Reply
  answered : Body → Reply

-- what `fetch` answers
pub data Fetched : Type 0 where
  failed : String → Fetched
  got : String → ℕ → Fetched

-- what `Token` answers; `reused` and `fresh` are both the token, from the cache and from the platform
pub data Answer : Type 0 where
  refused : String → Answer
  reused fresh : String → Answer

-- `zhTokenError`
unfoldable pub zh_token_error : ℤ → String → String
zh_token_error code msg =
    if eqb_ℤ code (pos 100001)
    then "请求过于频繁，请稍后重试"
    else if eqb_ℤ code (pos 100007)
    then "AppID 无效，或机器人状态异常（被封禁或已删除）"
    else if eqb_ℤ code (pos 100016)
    then "AppID 或 AppSecret 不正确"
    else if eqb_ℤ code (pos 10004)
    then "AppID 对应的机器人不存在"
    else msg

abbrev pub is_quote : Char → Bool
is_quote c = eqb (code c) 34

abbrev pub keep_unless_quote : Char → String → String
keep_unless_quote c String.[] = if is_quote c then String.[] else String.◌∷◌ c String.[]
keep_unless_quote c (String.◌∷◌ d s) = String.◌∷◌ c (String.◌∷◌ d s)

unfoldable pub trim_quotes_right : String → String
trim_quotes_right String.[] = String.[]
trim_quotes_right (String.◌∷◌ c s) = keep_unless_quote c (trim_quotes_right s)

unfoldable pub trim_quotes_left : String → String
trim_quotes_left String.[] = String.[]
trim_quotes_left (String.◌∷◌ c s) =
    let rest = trim_quotes_left s in if is_quote c then rest else String.◌∷◌ c s

abbrev pub second : ℕ
second = 1000000000

abbrev positive_or : ℕ → Option ℤ → ℕ
positive_or d (some (pos (suc n))) = suc n
positive_or d _ = d

-- `Token` and `fetch` of a manager; the error is a text. `parse_duration` is `time.ParseDuration`.
module _ (parse_duration : String → Option ℤ) where
  -- the time to live that `expires_in` says, two hours where it says none
  unfoldable pub ttl_of : String → ℕ
  unfolding trim_quotes_left trim_quotes_right
  ttl_of expires_in =
      let raw = trim_quotes_right (trim_quotes_left expires_in) in
      if not (raw == "") && not (raw == "null")
      then positive_or (7200 * second) (parse_duration (raw ++ "s"))
      else 7200 * second

  -- the error of an answer without a token
  unfoldable pub refusal : Body → String
  unfolding trim_space zh_token_error itoa
  refusal b =
      let msg = trim_space b.message in
      let msg' = if msg == "" then trim_space b.data_ else msg in
      if not (eqb_ℤ b.code_ (pos 0))
      then "获取凭证失败（" ++ (itoa b.code_ ++ ("）：" ++ zh_token_error b.code_ msg'))
      else "获取凭证失败：" ++ msg'

  -- `fetch`: an error, or a token and its time to live
  unfoldable pub fetch : Reply → Fetched
  unfolding ttl_of refusal
  fetch (not_made e) = failed e
  fetch (not_sent e) = failed ("连接 QQ 开放平台失败：" ++ e)
  fetch (unread e) = failed ("读取凭证响应失败：" ++ e)
  fetch (not_decoded e) = failed ("解析凭证响应失败：" ++ e)
  fetch (answered b) =
      if b.access_token == "" then failed (refusal b) else got b.access_token (ttl_of b.expires_in)

  -- the answer of `Token`: the token, whether it took a request, and the cache after it
  abbrev pub keep : String → ℕ → Fetched → Assoc CachedToken → Answer × Assoc CachedToken
  keep id later (failed e) cache = (refused e, cache)
  keep id later (got t ttl) cache =
      (fresh t, insert id (record { token = t; expires = (later + ttl) - 60 * second }) cache)

  -- the token in the cache, where it has not expired
  unfoldable pub cached : String → ℕ → Assoc CachedToken → Option String
  unfolding lookup
  cached id now cache = elim (lookup id cache) [
    | none ↦ none
    | some c ↦ (if ltb now c.expires then some c.token else none)
  ]

  -- `Token` at an instant, with what the platform answers if it is asked, and the instant after that
  unfoldable pub token :
      String → String → ℕ → Reply → ℕ → Assoc CachedToken → Answer × Assoc CachedToken
  unfolding trim_space cached fetch insert
  token app_id app_secret now reply later cache =
      let id = trim_space app_id in
      if (id == "") || (trim_space app_secret == "")
      then (refused "未填写 AppID 或 AppSecret", cache)
      else elim (cached id now cache) [
        | some t ↦ (reused t, cache)
        | none ↦ keep id later (fetch reply) cache
      ]

-- `Invalidate`
unfoldable pub invalidate : String → Assoc CachedToken → Assoc CachedToken
unfolding remove
invalidate app_id cache = remove app_id cache

-- `BaseFor`
unfoldable pub base_for : Bool → String
base_for sandbox =
    if sandbox then "https://sandbox.api.sgroup.qq.com" else "https://api.sgroup.qq.com"
