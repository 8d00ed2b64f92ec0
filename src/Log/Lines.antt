-- ===== src/Log/Lines.antt =====
-- internal/logx/logx.go: what is read off a raw line.
use ycfrp.Base.{
  String, Bool, ◌||◌, ◌&&◌, Option, none, some, List, [], ◌∷◌, if◌then◌else◌, Runes, to_lower,
  contains, eqb, Char, code,
}
use ycfrp.Log.{level_error, level_warn, level_debug, level_trace, level_info}

-- `Hint`
pub record Hint : Type 0 where
  pub pattern_ : String
  pub title : String
  pub cause : String
  pub fix_ : String

abbrev pub login_failed : Hint
login_failed = record {
  pattern_ = "login to server failed";
  title = "连接服务端失败";
  cause = "frpc 无法使用当前令牌与 frps 建立控制连接，通常为 token 不一致或服务端端口不可达。";
  fix_ = "核对客户端与服务端 token 是否完全相同，并确认服务端地址与绑定端口可达。";
}

abbrev pub not_authorized : Hint
not_authorized = record {
  pattern_ = "authorization failed";
  title = "令牌校验未通过";
  cause = "两端 auth.token 不匹配，服务端拒绝了本次登录。";
  fix_ = "在面板「服务端」与「客户端」页面将 token 保持一致后重启内核。";
}

abbrev pub port_used : Hint
port_used = record {
  pattern_ = "port already used";
  title = "端口已被占用";
  cause = "隧道声明的远程端口已在本机或服务端被其他进程监听。";
  fix_ = "更换隧道远程端口，或结束占用该端口的进程后重新启动隧道。";
}

abbrev pub refused : Hint
refused = record {
  pattern_ = "connection refused";
  title = "连接被拒绝";
  cause = "目标地址上没有服务在监听，或防火墙拦截了该连接。";
  fix_ = "确认本地服务已启动并监听在隧道配置的本地端口上。";
}

abbrev pub timed_out : Hint
timed_out = record {
  pattern_ = "i/o timeout";
  title = "网络超时";
  cause = "与服务端之间的链路超时，可能是网络抖动、代理异常或服务端未启动。";
  fix_ = "检查网络与代理连通性，并确认 frps 服务端处于运行状态。";
}

abbrev pub start_failed : Hint
start_failed = record {
  pattern_ = "start error";
  title = "隧道启动失败";
  cause = "隧道参数未通过服务端校验，常见于端口越界或名称冲突。";
  fix_ = "检查隧道远程端口是否落在服务端允许的端口区间内。";
}

abbrev pub no_route : Hint
no_route = record {
  pattern_ = "no route to host";
  title = "目标主机不可达";
  cause = "路由或 DNS 解析异常，无法抵达服务端地址。";
  fix_ = "核对服务端地址拼写，并确认本机 DNS 与默认网关正常。";
}

unfoldable pub hints : List Hint
hints =
    login_failed ∷ not_authorized ∷ port_used ∷ refused ∷ timed_out ∷ start_failed ∷ no_route ∷ []

abbrev pub matches : ⦃r : Runes⦄ → String → Hint → Bool
matches line h = contains (to_lower line) (to_lower h.pattern_)

-- the loop of `Explain`
unfoldable pub first_hint : ⦃r : Runes⦄ → String → List Hint → Option Hint
unfolding contains to_lower
first_hint line [] = none
first_hint line (h ∷ hs) = let rest = first_hint line hs in if matches line h then some h else rest

-- `Explain`
unfoldable pub explain : ⦃r : Runes⦄ → String → Option Hint
unfolding first_hint hints
explain line = first_hint line hints

-- `detectLevel`
unfoldable pub detect_level : ⦃r : Runes⦄ → String → String
unfolding contains to_lower
detect_level line =
    let lower = to_lower line in
    if contains lower "[e" && contains lower "error"
    then level_error
    else if contains lower "error"
        || contains lower "failed"
        || contains lower "panic"
        || contains lower "fatal"
    then level_error
    else if contains lower "[w" && contains lower "warn"
    then level_warn
    else if contains lower "warn"
    then level_warn
    else if contains lower "[d" && contains lower "debug"
    then level_debug
    else if contains lower "[t" && contains lower "trace"
    then level_trace
    else level_info

abbrev pub is_line_end : Char → Bool
is_line_end c = eqb (code c) 13 || eqb (code c) 10

abbrev pub keep_unless_end : Char → String → String
keep_unless_end c String.[] = if is_line_end c then String.[] else String.◌∷◌ c String.[]
keep_unless_end c (String.◌∷◌ d s) = String.◌∷◌ c (String.◌∷◌ d s)

-- `strings.TrimRight(line, "\r\n")`
unfoldable pub trim_line_end : String → String
trim_line_end String.[] = String.[]
trim_line_end (String.◌∷◌ c s) = keep_unless_end c (trim_line_end s)
