-- ===== src/Frp/StartError.antt =====
-- internal/frp/instance.go: why the kernel could not start, told from the text of its error.
pub mod Port
use Prim.Native.Char.{Char, code}
use Prim.Native.String.{◌++◌}
use ycfrp.Base.{
  ℕ, zero, suc, ◌+◌, ◌-◌, ◌*◌, String, Bool, true, false, ◌&&◌, ◌||◌, not, Option, none, some, ℤ,
  pos, eqb, ltb, leb, ◌==◌, if◌then◌else◌, is_digit, itoa, contains, has_prefix, trim_prefix,
  text_before,
}
use ycfrp.Frp.Instance.{Instance, kind_label}

-- `\d{1,k}` from the start of a text, most digits first, as the number they write
unfoldable pub digits_up_to : ℕ → ℕ → String → ℕ
digits_up_to zero acc s = acc
digits_up_to (suc k) acc String.[] = acc
digits_up_to (suc k) acc (String.◌∷◌ c s) =
    let more = digits_up_to k (acc * 10 + (code c - 48)) s in
    if is_digit (code c) then more else acc

abbrev starts_with_digit : String → Bool
starts_with_digit String.[] = false
starts_with_digit (String.◌∷◌ c s) = is_digit (code c)

-- the group of the first match of `bindPortPattern`, as `strconv.Atoi` reads it
unfoldable pub first_port : String → Option ℕ
unfolding digits_up_to
first_port String.[] = none
first_port (String.◌∷◌ c s) =
    let rest = first_port s in
    if eqb (code c) b':' && starts_with_digit s then some (digits_up_to 5 0 s) else rest

-- a port that is not in range is no port
abbrev in_range : Option ℕ → ℕ
in_range none = 0
in_range (some p) = if eqb p 0 || ltb 65535 p then 0 else p

abbrev is_listen : String → Bool
is_listen msg = contains msg "listen tcp" || contains msg "listen udp"

-- `portFromBindError`
unfoldable pub port_from_bind_error : String → ℕ
unfolding text_before first_port contains
port_from_bind_error msg = elim (text_before msg "bind:") [
  | some head ↦ in_range (first_port head)
  | none ↦ (if not (is_listen msg) then 0 else in_range (first_port msg))
]

-- `\s` of Go's regular expressions
abbrev is_blank : ℕ → Bool
is_blank c = eqb c 9 || eqb c 10 || eqb c 12 || eqb c 13 || eqb c 32

-- `[0-9]+` from the start of a text
digit_run : String → String
digit_run String.[] = String.[]
digit_run (String.◌∷◌ c s) =
    let rest = digit_run s in if is_digit (code c) then String.◌∷◌ c rest else String.[]

-- `[^\s:]*:[0-9]+` from the start of a text
host_port : String → Option String
unfolding digit_run
host_port String.[] = none
host_port (String.◌∷◌ c s) =
    let rest = host_port s in
    if eqb (code c) b':'
    then if starts_with_digit s then some (String.◌∷◌ c (digit_run s)) else none
    else if is_blank (code c)
    then none
    else elim rest [ none ↦ none | some t ↦ some (String.◌∷◌ c t) ]

-- `[^\s:]+:[0-9]+` from the start of a text
addr_at : String → Option String
unfolding host_port
addr_at String.[] = none
addr_at (String.◌∷◌ c s) = if eqb (code c) b':' then none else host_port (String.◌∷◌ c s)

-- the group of a match of `listen (?:tcp|udp) ([^\s:]+:[0-9]+)` at the start of a text
match_listen : String → Option String
unfolding addr_at trim_prefix
match_listen s = elim (trim_prefix s "listen tcp ") [
  | some t ↦ addr_at t
  | none ↦ elim (trim_prefix s "listen udp ") [ some t ↦ addr_at t | none ↦ none ]
]

-- `addrFromBindError`, the group of the first match; the empty text where there is none
unfoldable pub addr_from_bind_error : String → String
unfolding match_listen
addr_from_bind_error String.[] = String.[]
addr_from_bind_error (String.◌∷◌ c s) =
    let rest = addr_from_bind_error s in
    elim (match_listen (String.◌∷◌ c s)) [ some addr ↦ addr | none ↦ rest ]

abbrev pub not_local : String
not_local = "cannot assign requested address"

-- `DescribeStartError`, of an error that is not nil
unfoldable pub describe_start_error : Instance → String → String
unfolding contains port_from_bind_error addr_from_bind_error kind_label itoa
describe_start_error i msg =
    let addr = addr_from_bind_error msg in
    let port = port_from_bind_error msg in
    if contains msg not_local
    then if not (addr == "")
      then "无法绑定到地址 " ++ addr
        ++ "：该地址不属于本机。云服务器的公网 IP 通常是运营商 NAT 映射的，本机网卡上并不存在，绑定地址应填 0.0.0.0（监听所有网卡）或内网地址。原始错误：" ++ msg
      else "绑定地址不属于本机，无法启动。云服务器的公网 IP 是 NAT 映射的，绑定地址应填 0.0.0.0 或内网地址。原始错误：" ++ msg
    else if ltb 0 port
    then "端口 "
      ++ itoa (pos port)
      ++ " 已被占用，无法启动 "
      ++ kind_label i
      ++ "。请确认该端口没有被其它实例或其它程序使用，然后在实例设置里换一个端口。原始错误："
      ++ msg
    else msg
