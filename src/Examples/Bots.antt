-- ===== src/Examples/Bots.antt =====
-- The tokens of the QQ platform at small inputs.
use ycfrp.Base.{
  ◌*◌, none, [], ◌≡◌, refl, trim_space, trim_left, trim_right, is_space, pos, arith, lookup,
}
use ycfrp.Qq.Tokens.{
  Reply, answered, reused, fresh, second, token, cached, invalidate, fetch, ttl_of,
  trim_quotes_left, trim_quotes_right,
}
use ycfrp.Qq.Tokens.Reuse.{token_reused}

-- a token for two hours
abbrev granted : Reply
granted =
    answered (record {
      access_token = "abc";
      expires_in = "null";
      code_ = pos 0;
      message = "";
      data_ = "";
    })

token_reused_example :
    let (answer, after) = token (λ s. none) " 7" "secret" 0 granted 1 [] in
    (answer ≡ fresh "abc")
    × (token (λ s. none) "7" "other" 5 granted 6 after ≡ (reused "abc", after))
    × (cached (λ s. none) (trim_space " 7") 5 (invalidate (trim_space " 7") after) ≡ none)
unfolding trim_space trim_left trim_right is_space cached lookup fetch ttl_of trim_quotes_left
    trim_quotes_right
token_reused_example =
    token_reused (λ s. none) " 7" "secret" "7" "other" 0 1 5 6 granted granted "abc" (7200 * second)
      [] refl refl refl refl refl refl (omega arith)
