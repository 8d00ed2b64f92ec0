-- ===== src/Frp/Export/Json.antt =====
-- internal/frp/parse.go: the export as JSON, and the choice of the format.
use Prim.Native.Char.{Char, code}
use Prim.Native.String.{◌++◌, char_at}
use ycfrp.Base
use ycfrp.Base.{
  String, Bool, true, false, ◌||◌, List, [], ◌∷◌, eqb, ◌==◌, if◌then◌else◌, Runes, to_lower, itoa,
  join,
}
use ycfrp.Frp.Tunnel.{Tunnel}
use ycfrp.Frp.Export.{
  ExportOptions, backslash, quote, quoted_items, default_local_ip, is_empty, export_toml, toml_char,
}

-- what the replacer of `jsonString` writes for a character, in front of a text
abbrev pub json_char : Char → String → String
json_char c s =
    if eqb (code c) 9 then String.◌∷◌ backslash (String.◌∷◌ (char_at "t" 0) s) else toml_char c s

-- the replacer of `jsonString`, in front of a text
unfoldable pub json_escape : String → String → String
json_escape String.[] t = t
json_escape (String.◌∷◌ c s) t = json_char c (json_escape s t)

-- `jsonString`
unfoldable pub json_string : String → String
unfolding json_escape
json_string s = String.◌∷◌ quote (json_escape s (String.◌∷◌ quote String.[]))

-- `jsonStringList`
unfoldable pub json_string_list : List String → String
unfolding quoted_items json_string join
json_string_list items = "[" ++ (join (quoted_items json_string items) ", " ++ "]")

-- a field of an object
abbrev field : String → String → String
field key value = "\"" ++ (key ++ ("\": " ++ value))

-- the fields that depend on the type
unfoldable pub json_of_type : String → Tunnel → List String
unfolding json_string json_string_list itoa
json_of_type type t =
    if type == "tcp" || type == "udp"
    then field "remotePort" (itoa t.remote_port) ∷ []
    else if type == "http" || type == "https" || type == "tcpmux"
    then Base.◌++◌
        (if is_empty t.custom_domains
          then []
          else field "customDomains" (json_string_list t.custom_domains) ∷ [])
        (if t.subdomain == "" then [] else field "subdomain" (json_string t.subdomain) ∷ [])
    else if type == "stcp" || type == "xtcp" || type == "sudp"
    then field "secretKey" (json_string t.secret_key) ∷ []
    else []

unfoldable pub json_fields : ⦃r : Runes⦄ → Tunnel → List String
unfolding json_string default_local_ip json_of_type to_lower itoa
json_fields t =
    field "name" (json_string t.name)
    ∷ field "type" (json_string (to_lower t.type))
    ∷ field "localIP" (json_string (default_local_ip t.local_ip))
    ∷ field "localPort" (itoa t.local_port)
    ∷ json_of_type (to_lower t.type) t

-- the loop over the tunnels; no comma stands after the last one
unfoldable pub json_proxies : ⦃r : Runes⦄ → List Tunnel → String
unfolding json_fields join
json_proxies [] = ""
json_proxies (t ∷ ts) =
    "    {"
    ++ (join (json_fields t) ", " ++ ((if is_empty ts then "}\n" else "},\n") ++ json_proxies ts))

-- `exportJSON`
unfoldable pub export_json : ⦃r : Runes⦄ → List Tunnel → ExportOptions → String
unfolding json_string json_proxies itoa
export_json ts o =
    "{\n  \"serverAddr\": "
    ++ (json_string o.server_addr
        ++ (",\n  \"serverPort\": "
            ++ (itoa o.server_port
                ++ (",\n"
                    ++ ((if o.user == ""
                          then ""
                          else "  \"user\": " ++ (json_string o.user ++ ",\n"))
                        ++ ((if o.token == ""
                              then ""
                              else "  \"auth\": { \"method\": \"token\", \"token\": "
                                ++ (json_string o.token ++ " },\n"))
                            ++ ("  \"transport\": { \"tls\": { \"enable\": "
                                ++ ((if o.tls then "true" else "false")
                                    ++ (" } },\n  \"log\": { \"level\": "
                                        ++ (json_string o.log_level
                                            ++ (", \"to\": \"console\" },\n  \"proxies\": [\n"
                                                ++ (json_proxies ts ++ "  ]\n}\n"))))))))))))

-- `ExportClientConfig`, given `strings.EqualFold`
unfoldable pub export_client_config :
    ⦃r : Runes⦄ → (String → String → Bool) → List Tunnel → ExportOptions → String
unfolding export_toml export_json
export_client_config equal_fold ts o =
    if equal_fold o.format "json" then export_json ts o else export_toml ts o
