-- ===== src/Log/Table.antt =====
-- internal/logx/translate.go, `kernelTrans`: the other messages of the kernel, and the whole table.
use ycfrp.Base.{List, [], ◌∷◌, ◌++◌}
use ycfrp.Log.Pattern.{lit, many, many1, text, group, not_newline, not_bracket, digit}
use ycfrp.Log.Rules.{Rule, rule, connection_rules}

abbrev pub proxy_rules : List Rule
proxy_rules =
    rule
      ((0, lit "[")
        ∷ (1, many not_bracket)
        ∷ (0, lit "] start error: ")
        ∷ (2, many not_newline)
        ∷ [])
      (text "[" ∷ group 1 ∷ text "] 启动失败: " ∷ group 2 ∷ [])
    ∷ rule ((0, lit "[") ∷ (1, many not_bracket) ∷ (0, lit "] start proxy success") ∷ [])
        (text "[" ∷ group 1 ∷ text "] 隧道启动成功" ∷ [])
    ∷ rule ((0, lit "control message dispatcher exited") ∷ []) (text "控制消息分发器已退出" ∷ [])
    ∷ rule ((0, lit "new work connection registered") ∷ []) (text "已注册新的工作连接" ∷ [])
    ∷ rule ((0, lit "work connection pool is full, discarding") ∷ []) (text "工作连接池已满，丢弃连接" ∷ [])
    ∷ rule
        ((0, lit "replaced by client [")
          ∷ (1, many not_newline)
          ∷ (0, lit "] (control ID ")
          ∷ (2, many1 digit)
          ∷ (0, lit ")")
          ∷ [])
        (text "已被客户端 [" ∷ group 1 ∷ text "] 替换（控制 ID " ∷ group 2 ∷ text "）" ∷ [])
    ∷ rule ((0, lit "panic error: ") ∷ (1, many not_newline) ∷ [])
        (text "发生 panic: " ∷ group 1 ∷ [])
    ∷ rule ((0, lit "get work connection from pool") ∷ []) (text "从连接池获取工作连接" ∷ [])
    ∷ rule ((0, lit "no work connections available, ") ∷ (1, many not_newline) ∷ [])
        (text "无可用工作连接: " ∷ group 1 ∷ [])
    ∷ rule ((0, lit "client exit success") ∷ []) (text "客户端退出成功" ∷ [])
    ∷ rule
        ((0, lit "new proxy [")
          ∷ (1, many not_bracket)
          ∷ (0, lit "] type [")
          ∷ (2, many not_bracket)
          ∷ (0, lit "] error: ")
          ∷ (3, many not_newline)
          ∷ [])
        (text "新增隧道 [" ∷ group 1 ∷ text "]（类型 " ∷ group 2 ∷ text "）失败: " ∷ group 3 ∷ [])
    ∷ rule
        ((0, lit "new proxy [")
          ∷ (1, many not_bracket)
          ∷ (0, lit "] type [")
          ∷ (2, many not_bracket)
          ∷ (0, lit "] success")
          ∷ [])
        (text "新增隧道 [" ∷ group 1 ∷ text "]（类型 " ∷ group 2 ∷ text "）成功" ∷ [])
    ∷ rule ((0, lit "received invalid ping: ") ∷ (1, many not_newline) ∷ [])
        (text "收到无效 ping: " ∷ group 1 ∷ [])
    ∷ rule ((0, lit "close proxy [") ∷ (1, many not_bracket) ∷ (0, lit "] success") ∷ [])
        (text "关闭隧道 [" ∷ group 1 ∷ text "] 成功" ∷ [])
    ∷ rule
        ((0, lit "do http proxy request [host: ")
          ∷ (1, many not_newline)
          ∷ (0, lit "] error: no route found: ")
          ∷ (2, many not_newline)
          ∷ [])
        (text "HTTP 代理请求失败（主机 "
          ∷ group 1
          ∷ text "）：找不到对应的路由 ["
          ∷ group 2
          ∷ text "]。通常是该域名/路径没有配置对应的 HTTP 隧道，或隧道未启用"
          ∷ [])
    ∷ rule
        ((0, lit "connect to local service [")
          ∷ (1, many not_bracket)
          ∷ (0, lit "] error: ")
          ∷ (2, many not_newline)
          ∷ [])
        (text "连接本地服务 [" ∷ group 1 ∷ text "] 失败: " ∷ group 2 ∷ [])
    ∷ rule
        ((0, lit "write proxy protocol header to local conn error: ") ∷ (1, many not_newline) ∷ [])
        (text "向本地连接写入代理协议头失败: " ∷ group 1 ∷ [])
    ∷ rule ((0, lit "proxy closing") ∷ []) (text "隧道正在关闭" ∷ [])
    ∷ rule ((0, lit "failed to get work connection: ") ∷ (1, many not_newline) ∷ [])
        (text "获取工作连接失败: " ∷ group 1 ∷ [])
    ∷ rule ((0, lit "get a new work connection: [") ∷ (1, many not_bracket) ∷ (0, lit "]") ∷ [])
        (text "获得新的工作连接: [" ∷ group 1 ∷ text "]" ∷ [])
    ∷ rule
        ((0, lit "met temporary error: ")
          ∷ (1, many not_newline)
          ∷ (0, lit ", sleep for ")
          ∷ (2, many not_newline)
          ∷ (0, lit " ...")
          ∷ [])
        (text "遇到临时错误: " ∷ group 1 ∷ text "，等待 " ∷ group 2 ∷ text " 后重试" ∷ [])
    ∷ []

abbrev pub service_rules : List Rule
service_rules =
    rule ((0, lit "listener is closed: ") ∷ (1, many not_newline) ∷ [])
      (text "监听已关闭: " ∷ group 1 ∷ [])
    ∷ rule ((0, lit "get a user connection [") ∷ (1, many not_bracket) ∷ (0, lit "]") ∷ [])
        (text "收到用户连接 [" ∷ group 1 ∷ text "]" ∷ [])
    ∷ rule
        ((0, lit "the user conn [")
          ∷ (1, many not_bracket)
          ∷ (0, lit "] was rejected, err:")
          ∷ (2, many not_newline)
          ∷ [])
        (text "用户连接 [" ∷ group 1 ∷ text "] 被拒绝，错误:" ∷ group 2 ∷ [])
    ∷ rule ((0, lit "create encryption stream error: ") ∷ (1, many not_newline) ∷ [])
        (text "创建加密流失败: " ∷ group 1 ∷ [])
    ∷ rule ((0, lit "frps tcp listen on ") ∷ (1, many not_newline) ∷ [])
        (text "服务端 TCP 监听于 " ∷ group 1 ∷ [])
    ∷ rule ((0, lit "frps kcp listen on udp ") ∷ (1, many not_newline) ∷ [])
        (text "服务端 KCP 监听于 UDP " ∷ group 1 ∷ [])
    ∷ rule ((0, lit "frps quic listen on ") ∷ (1, many not_newline) ∷ [])
        (text "服务端 QUIC 监听于 " ∷ group 1 ∷ [])
    ∷ rule ((0, lit "frps sshTunnelGateway listen on port ") ∷ (1, many1 digit) ∷ [])
        (text "服务端 SSH 隧道网关监听端口 " ∷ group 1 ∷ [])
    ∷ rule ((0, lit "http service listen on ") ∷ (1, many not_newline) ∷ [])
        (text "HTTP 虚拟主机监听于 " ∷ group 1 ∷ [])
    ∷ rule ((0, lit "https service listen on ") ∷ (1, many not_newline) ∷ [])
        (text "HTTPS 虚拟主机监听于 " ∷ group 1 ∷ [])
    ∷ rule ((0, lit "dashboard listen on ") ∷ (1, many not_newline) ∷ [])
        (text "仪表盘监听于 " ∷ group 1 ∷ [])
    ∷ rule
        ((0, lit "tcpmux httpconnect multiplexer listen on ")
          ∷ (1, many not_newline)
          ∷ (0, lit ", passthrough: ")
          ∷ (2, many not_newline)
          ∷ [])
        (text "TCPMux 多路复用监听于 " ∷ group 1 ∷ text "，透传: " ∷ group 2 ∷ [])
    ∷ rule ((0, lit "listener for incoming connections from client closed") ∷ [])
        (text "客户端连接监听已关闭" ∷ [])
    ∷ rule ((0, lit "quic listener for incoming connections from client closed") ∷ [])
        (text "QUIC 客户端连接监听已关闭" ∷ [])
    ∷ rule ((0, lit "dashboard server exit with error: ") ∷ (1, many not_newline) ∷ [])
        (text "仪表盘服务退出: " ∷ group 1 ∷ [])
    ∷ rule ((0, lit "http: Server closed") ∷ []) (text "HTTP 服务已关闭" ∷ [])
    ∷ rule ((0, lit "checkAndEnableTLSServerConnWithTimeout error: ") ∷ (1, many not_newline) ∷ [])
        (text "启用服务端 TLS 连接失败: " ∷ group 1 ∷ [])
    ∷ rule ((0, lit "visitor listen on ") ∷ (1, many not_newline) ∷ [])
        (text "访问端监听于 " ∷ group 1 ∷ [])
    ∷ rule ((0, lit "start proxy success") ∷ []) (text "隧道启动成功" ∷ [])
    ∷ rule ((0, lit "proxy name [") ∷ (1, many not_bracket) ∷ (0, lit "] is already in use") ∷ [])
        (text "隧道名称 [" ∷ group 1 ∷ text "] 已被占用" ∷ [])
    ∷ []

unfoldable pub kernel_trans : List Rule
kernel_trans = connection_rules ++ proxy_rules ++ service_rules
