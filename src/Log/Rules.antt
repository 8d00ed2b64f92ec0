-- ===== src/Log/Rules.antt =====
-- internal/logx/translate.go, `kernelTrans`: the messages of the kernel and what the panel says
-- instead, those of the connection.
use ycfrp.Base.{List, [], ◌∷◌}
use ycfrp.Log.Pattern.{
  Pattern, Part, lit, many, many1, either, text, group, not_newline, not_colon, digit,
}

-- `transRule`
pub record Rule : Type 0 where
  pub atoms : Pattern
  pub template : List Part

abbrev pub rule : Pattern → List Part → Rule
rule a t = record { atoms = a; template = t }

abbrev pub connection_rules : List Rule
connection_rules =
    rule ((0, lit "try to connect to server...") ∷ []) (text "正在连接服务端..." ∷ [])
    ∷ rule
        ((0, lit "connect to server error: token in login doesn't match token from configuration")
          ∷ [])
        (text "连接服务端失败：登录令牌与服务端配置不一致（请检查服务端与客户端的「认证令牌 token」是否相同）" ∷ [])
    ∷ rule
        ((0, lit "register control error: token in login doesn't match token from configuration")
          ∷ [])
        (text "注册控制连接失败：登录令牌与服务端配置不一致（请检查服务端与客户端的「认证令牌 token」是否相同）" ∷ [])
    ∷ rule ((0, lit "connect to server error: ") ∷ (1, many not_newline) ∷ [])
        (text "连接服务端失败: " ∷ group 1 ∷ [])
    ∷ rule
        ((0, lit "login to server success, get run id [")
          ∷ (1, many not_newline)
          ∷ (0, lit "]")
          ∷ [])
        (text "登录服务端成功，运行 ID [" ∷ group 1 ∷ text "]" ∷ [])
    ∷ rule ((0, lit "login to server ") ∷ (1, either "failed" "error") ∷ (2, many not_newline) ∷ [])
        (text "登录服务端失败" ∷ group 2 ∷ [])
    ∷ rule
        ((0, lit "login to the server failed: ")
          ∷ (1, many not_newline)
          ∷ (0, lit ". With loginFailExit enabled, no additional retries will be attempted")
          ∷ [])
        (text "登录服务端失败: " ∷ group 1 ∷ text "（已开启「登录失败即退出」，不再重试）" ∷ [])
    ∷ rule ((0, lit "new control error: ") ∷ (1, many not_newline) ∷ [])
        (text "新建控制连接失败: " ∷ group 1 ∷ [])
    ∷ rule ((0, lit "register control error: ") ∷ (1, many not_newline) ∷ [])
        (text "注册控制连接失败: " ∷ group 1 ∷ [])
    ∷ rule ((0, lit "write login error response error: ") ∷ (1, many not_newline) ∷ [])
        (text "回写登录错误响应失败: " ∷ group 1 ∷ [])
    ∷ rule ((0, lit "complete control login error: ") ∷ (1, many not_newline) ∷ [])
        (text "完成控制连接登录失败: " ∷ group 1 ∷ [])
    ∷ rule ((0, lit "register visitor conn error: ") ∷ (1, many not_newline) ∷ [])
        (text "注册访问连接失败: " ∷ group 1 ∷ [])
    ∷ rule
        ((0, lit "client login info: ip [")
          ∷ (1, many not_newline)
          ∷ (0, lit "] version [")
          ∷ (2, many not_newline)
          ∷ (0, lit "] hostname [")
          ∷ (3, many not_newline)
          ∷ (0, lit "] os [")
          ∷ (4, many not_newline)
          ∷ (0, lit "] arch [")
          ∷ (5, many not_newline)
          ∷ (0, lit "]")
          ∷ [])
        (text "客户端登录信息: IP ["
          ∷ group 1
          ∷ text "] 版本 ["
          ∷ group 2
          ∷ text "] 主机名 ["
          ∷ group 3
          ∷ text "] 系统 ["
          ∷ group 4
          ∷ text "] 架构 ["
          ∷ group 5
          ∷ text "]"
          ∷ [])
    ∷ rule ((0, lit "create new controller error: ") ∷ (1, many not_newline) ∷ [])
        (text "创建控制器失败: " ∷ group 1 ∷ [])
    ∷ rule
        ((0, lit "no client control found for run id [")
          ∷ (1, many not_newline)
          ∷ (0, lit "]")
          ∷ [])
        (text "未找到运行 ID [" ∷ group 1 ∷ text "] 对应的客户端控制连接" ∷ [])
    ∷ rule
        ((0, lit "invalid NewWorkConn with run id [") ∷ (1, many not_newline) ∷ (0, lit "]") ∷ [])
        (text "运行 ID [" ∷ group 1 ∷ text "] 的新工作连接无效" ∷ [])
    ∷ rule ((0, lit "start new connection to server error: ") ∷ (1, many not_newline) ∷ [])
        (text "建立到服务端的新连接失败: " ∷ group 1 ∷ [])
    ∷ rule ((0, lit "error during NewWorkConn authentication: ") ∷ (1, many not_newline) ∷ [])
        (text "新工作连接认证出错: " ∷ group 1 ∷ [])
    ∷ rule ((0, lit "work connection write to server error: ") ∷ (1, many not_newline) ∷ [])
        (text "工作连接写回服务端失败: " ∷ group 1 ∷ [])
    ∷ rule ((0, lit "StartWorkConn contains error: ") ∷ (1, many not_newline) ∷ [])
        (text "启动工作连接出错: " ∷ group 1 ∷ [])
    ∷ rule ((0, lit "dispatch NatHoleResp message to related proxy error") ∷ [])
        (text "分发打洞响应给相关隧道出错" ∷ [])
    ∷ rule ((0, lit "pong message contains error: ") ∷ (1, many not_newline) ∷ [])
        (text "pong 消息包含错误: " ∷ group 1 ∷ [])
    ∷ rule ((0, lit "token in login doesn't match token from configuration") ∷ [])
        (text "登录令牌与服务端配置不一致（请检查服务端与客户端的「认证令牌 token」是否填写相同）" ∷ [])
    ∷ rule ((0, lit "token in heartbeat doesn't match token from configuration") ∷ [])
        (text "心跳令牌与服务端配置不一致" ∷ [])
    ∷ rule ((0, lit "token in NewWorkConn doesn't match token from configuration") ∷ [])
        (text "工作连接令牌与服务端配置不一致" ∷ [])
    ∷ rule ((0, lit "session shutdown") ∷ []) (text "会话已关闭" ∷ [])
    ∷ rule
        ((0, lit "dial tcp ")
          ∷ (1, many1 not_colon)
          ∷ (1, lit ":")
          ∷ (1, many1 digit)
          ∷ (
            0,
            lit
                ": connectex: No connection could be made because the target machine actively refused it.",
          )
          ∷ [])
        (text "无法连接 " ∷ group 1 ∷ text "：目标机器主动拒绝了连接（服务端未启动或端口不对）" ∷ [])
    ∷ rule ((0, lit "non-TLS connection received on a TlsOnly server") ∷ [])
        (text "收到非 TLS 连接，但服务端已强制 TLS（请确认客户端也开启了 TLS）" ∷ [])
    ∷ rule ((0, lit "receive heartbeat from server") ∷ []) (text "收到服务端心跳" ∷ [])
    ∷ rule ((0, lit "send heartbeat to server") ∷ []) (text "向服务端发送心跳" ∷ [])
    ∷ rule ((0, lit "receive heartbeat") ∷ []) (text "收到心跳" ∷ [])
    ∷ rule
        ((0, lit "error during ping authentication: ")
          ∷ (1, many not_newline)
          ∷ (0, lit ", skip sending ping message")
          ∷ [])
        (text "ping 认证出错: " ∷ group 1 ∷ text "，已跳过发送" ∷ [])
    ∷ rule ((0, lit "heartbeat timeout") ∷ []) (text "心跳超时" ∷ [])
    ∷ []
