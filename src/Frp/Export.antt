-- ===== src/Frp/Export.antt =====
-- internal/frp/parse.go, `ExportClientConfig`: tunnels written as a configuration file of frpc.
pub mod Quote
pub mod Json
use Prim.Native.Char.{Char, code}
use Prim.Native.String
use Prim.Native.String.{◌++◌, char_at}
use ycfrp.Base.{
  ℕ, String, Bool, true, false, ◌&&◌, ◌||◌, not, List, [], ◌∷◌, ℤ, is_pos, eqb, ◌==◌, if◌then◌else◌,
  Runes, trim_space, to_lower, itoa, join,
}
use ycfrp.Frp.Tunnel.{Tunnel}
use ycfrp.Frp.Build.{split_list}

-- `ExportOptions`
pub record ExportOptions : Type 0 where
  pub server_addr : String
  pub server_port : ℤ
  pub token : String
  pub user : String
  pub tls : Bool
  pub protocol : String
  pub log_level : String
  pub format : String

abbrev pub backslash : Char
backslash = char_at "\\" 0

abbrev pub quote : Char
quote = char_at "\"" 0

-- `versionBanner`, with the constants of internal/version/version.go
abbrev version_banner : String
version_banner = "YCFRP s2609.034 / frp 内核 0.71.0"

-- what the replacer of `tomlString` writes for a character, in front of a text
abbrev pub toml_char : Char → String → String
toml_char c s =
    if eqb (code c) 92
    then String.◌∷◌ backslash (String.◌∷◌ backslash s)
    else if eqb (code c) 34
    then String.◌∷◌ backslash (String.◌∷◌ quote s)
    else if eqb (code c) 10
    then String.◌∷◌ backslash (String.◌∷◌ (char_at "n" 0) s)
    else String.◌∷◌ c s

-- the replacer of `tomlString`, in front of a text
unfoldable pub toml_escape : String → String → String
toml_escape String.[] t = t
toml_escape (String.◌∷◌ c s) t = toml_char c (toml_escape s t)

-- `tomlString`
unfoldable pub toml_string : String → String
unfolding toml_escape
toml_string s = String.◌∷◌ quote (toml_escape s (String.◌∷◌ quote String.[]))

-- the loop of `tomlStringList` and `jsonStringList`
unfoldable pub quoted_items : (String → String) → List String → List String
unfolding trim_space
quoted_items f [] = []
quoted_items f (s ∷ items) =
    let rest = quoted_items f items in if trim_space s == "" then rest else f (trim_space s) ∷ rest

-- `tomlStringList`
unfoldable pub toml_string_list : List String → String
unfolding quoted_items toml_string join
toml_string_list items = "[" ++ (join (quoted_items toml_string items) ", " ++ "]")

-- `defaultLocalIP`
unfoldable pub default_local_ip : String → String
unfolding trim_space
default_local_ip ip = if trim_space ip == "" then "127.0.0.1" else ip

-- a line `key = value`
abbrev setting : String → String → String
setting key value = key ++ (" = " ++ (value ++ "\n"))

abbrev text_setting : String → String → String
text_setting key value = if value == "" then "" else setting key (toml_string value)

abbrev count_setting : String → ℤ → String
count_setting key n = if is_pos n then setting key (itoa n) else ""

abbrev bool_text : Bool → String
bool_text b = if b then "true" else "false"

abbrev pub is_empty {ℓ} : {A : Type ℓ} → List A → Bool
is_empty [] = true
is_empty (x ∷ xs) = false

-- the lines that depend on the type
unfoldable pub toml_of_type : String → Tunnel → String
unfolding toml_string toml_string_list split_list itoa
toml_of_type type t =
    let allow = split_list t.group in
    if type == "tcp" || type == "udp"
    then setting "remotePort" (itoa t.remote_port)
    else if type == "http" || type == "https" || type == "tcpmux"
    then (if is_empty t.custom_domains
        then ""
        else setting "customDomains" (toml_string_list t.custom_domains))
      ++ text_setting "subdomain" t.subdomain
    else if type == "stcp" || type == "xtcp" || type == "sudp"
    then setting "secretKey" (toml_string t.secret_key)
      ++ (if is_empty allow then "" else setting "allowUsers" (toml_string_list allow))
    else ""

unfoldable pub toml_check : Tunnel → String
unfolding toml_string itoa
toml_check t =
    if t.health_check_type == ""
    then ""
    else setting "healthCheck.type" (toml_string t.health_check_type)
      ++ (text_setting "healthCheck.path" t.health_check_url
          ++ (count_setting "healthCheck.intervalSeconds" t.health_check_interval
              ++ (count_setting "healthCheck.timeoutSeconds" t.health_check_timeout
                  ++ count_setting "healthCheck.maxFailed" t.health_check_max_failed)))

-- one `[[proxies]]`
unfoldable pub toml_proxy : ⦃r : Runes⦄ → Tunnel → String
unfolding toml_string default_local_ip to_lower toml_of_type toml_check itoa
toml_proxy t =
    "\n[[proxies]]\n"
    ++ (setting "name" (toml_string t.name)
        ++ (setting "type" (toml_string (to_lower t.type))
            ++ (setting "localIP" (toml_string (default_local_ip t.local_ip))
                ++ (setting "localPort" (itoa t.local_port)
                    ++ (toml_of_type (to_lower t.type) t
                        ++ ((if t.use_encryption then "transport.useEncryption = true\n" else "")
                            ++ ((if t.use_compression
                                  then "transport.useCompression = true\n"
                                  else "")
                                ++ (text_setting "transport.bandwidthLimit" t.bandwidth_limit
                                    ++ (text_setting "transport.proxyProtocolVersion"
                                          t.proxy_protocol_version
                                        ++ toml_check t)))))))))

unfoldable pub toml_proxies : ⦃r : Runes⦄ → List Tunnel → String
unfolding toml_proxy
toml_proxies [] = ""
toml_proxies (t ∷ ts) = toml_proxy t ++ toml_proxies ts

-- the lines before the proxies
unfoldable pub toml_common : ExportOptions → String
unfolding toml_string itoa
toml_common o =
    "# YCFRP 导出的 frpc 配置\n"
    ++ ("# 版本："
        ++ (version_banner
            ++ ("\n# 将该文件与官方 frpc 二进制放在同一目录，执行 frpc -c frpc.toml 即可启动\n\n"
                ++ (setting "serverAddr" (toml_string o.server_addr)
                    ++ (setting "serverPort" (itoa o.server_port)
                        ++ (text_setting "user" o.user
                            ++ ((if o.token == ""
                                  then ""
                                  else "auth.method = \"token\"\n"
                                    ++ setting "auth.token" (toml_string o.token))
                                ++ ((if not (o.protocol == "") && not (o.protocol == "tcp")
                                      then setting "transport.protocol" (toml_string o.protocol)
                                      else "")
                                    ++ (setting "transport.tls.enable" (bool_text o.tls)
                                        ++ (text_setting "log.level" o.log_level
                                            ++ "log.to = \"console\"\n"))))))))))

-- `exportTOML`
unfoldable pub export_toml : ⦃r : Runes⦄ → List Tunnel → ExportOptions → String
unfolding toml_common toml_proxies
export_toml ts o = toml_common o ++ toml_proxies ts
