-- ===== src/Deploy.antt =====
-- server/api/deploy_routes.py: the address at which devices reach the server, tokens for devices that
-- are made ready before their first report, and the installation package. `lan_ip` is what
-- `detect_lan_ip` finds. A package is its files, not the bytes of the archive.
pub mod Access
pub mod Outside
mod Tests
use Prim.Native.Char.{Char, code}
use Prim.Native.String as Text
use batch_shutdown_assistant.Prelude.{
  take_chars, is_ascii, ◌&&◌, unencodable, ℕ, String, concat, Bool, true, false, not, ◌||◌, Option,
  none, some, List, [], ◌∷◌, ◌++◌, num_eq, Result, ok, err, http, ◌==◌, if◌then◌else◌,
}
use batch_shutdown_assistant.Models.{Device, DeviceStatus, new_device, Db}
use batch_shutdown_assistant.Agent.{Config, required_secret}
use batch_shutdown_assistant.Audit.{log_audit}
use batch_shutdown_assistant.Inventory.{audit_device, text_or_empty}
use batch_shutdown_assistant.Imports.Csv.{text_or_none}

-- `ip.startswith("127.")`
abbrev pub is_loopback : String → Bool
is_loopback ip = take_chars 4 ip == "127."

-- The first address that is not of the loopback.
unfoldable pub first_outside : List String → Option String
first_outside [] = none
first_outside (ip ∷ ips) = let rest = first_outside ips in if is_loopback ip then rest else some ip

-- `if not local_ip`
abbrev pub is_missing : Option String → Bool
is_missing none = true
is_missing (some ip) = ip == ""

-- `_detect_lan_ip`: `probe` is the address of the socket that is connected to the outside, `addresses`
-- those of the host's name; `none` where a call raises.
unfoldable pub detect_lan_ip : Option String → Option (List String) → Option String
unfolding first_outside
detect_lan_ip probe none = probe
detect_lan_ip probe (some addresses) =
    let found = first_outside addresses in
    if not (is_missing probe) then probe else if is_missing found then probe else found

-- `host.split(":")[0]`
unfoldable pub before_colon : String → String
before_colon Text.[] = Text.[]
before_colon (Text.◌∷◌ c s) =
    let rest = before_colon s in if num_eq (code c) b':' then Text.[] else Text.◌∷◌ c rest

-- `host.split(":")[1] if ":" in host else default`
unfoldable pub port_or : String → String → String
unfolding before_colon
port_or default Text.[] = default
port_or default (Text.◌∷◌ c s) =
    let rest = port_or default s in if num_eq (code c) b':' then before_colon s else rest

abbrev pub is_local : String → Bool
is_local hostname = hostname == "localhost" || hostname == "127.0.0.1"

-- `request.headers.get("host", "localhost:8080")`
abbrev pub host_or_default : Option String → String
host_or_default none = "localhost:8080"
host_or_default (some host) = host

-- `_resolve_server_url`, of the `Host` header if the request has one
unfoldable pub resolve_server_url : Option String → Option String → Result String
unfolding before_colon port_or
resolve_server_url lan_ip header =
    let host = host_or_default header in
    if not (is_local (before_colon host))
    then ok (concat "http://" host)
    else if is_missing lan_ip
    then err (http 500 "无法检测宿主机局域网IP，请用局域网IP访问管理端后重试")
    else ok (concat "http://" (concat (text_or_empty lan_ip) (concat ":" (port_or "8080" host))))

-- `GET /api/deploy/server-url`
unfoldable pub get_server_url : Option String → Option String → Result String
unfolding resolve_server_url
get_server_url lan_ip header = resolve_server_url lan_ip header

pub record TokenRequest : Type 0 where
  pub hostname : String
  pub ip : String
  pub group_name : String

-- `POST /api/deploy/generate-token`; the ids are those of the device, its token and the audit entry.
unfoldable pub generate_device_token :
    String → String → String → ℕ → String → TokenRequest → Db → Device × Db
unfolding audit_device
generate_device_token id token fresh now username payload db =
    let device : Device = record (new_device id token now) {
      hostname = text_or_none payload.hostname;
      ip = text_or_none payload.ip;
      group_name = text_or_none payload.group_name;
      status = DeviceStatus.offline;
    } in
    (
      device,
      audit_device fresh now "device_create" username
          (some (concat payload.hostname (concat "(" (concat payload.ip ")"))))
          (some "via deploy package") (record db { devices = db.devices ++ device ∷ [] }),
    )

-- The text of `deploy.conf`.
abbrev pub deploy_conf : String → String → String
deploy_conf server_url enroll_secret =
    concat "# LAN Agent deploy config\nserver="
      (concat server_url (concat "\nenroll=" (concat enroll_secret "\n")))

-- A text of lines that end alike.
unfoldable pub lines_text : String → List String → String
lines_text end [] = ""
lines_text end (line ∷ lines) = let rest = lines_text end lines in concat line (concat end rest)

unfoldable pub readme_txt : String
unfolding lines_text
readme_txt = lines_text "\n" (
    "========================================" ∷ "  LAN Agent 安装使用指南"
    ∷ "========================================" ∷ "" ∷ "【安装步骤】" ∷ "" ∷ "1. 解压本压缩包到 U 盘或目标电脑的任意位置"
    ∷ "" ∷ "2. 右键点击 LanAgent.exe → 以管理员身份运行" ∷ "" ∷ "3. 出现安装界面，显示本机 IP 和服务器地址" ∷ ""
    ∷ "4. 等待显示「[成功]LAN Agent 已安装并启动」" ∷ "" ∷ "5. 按回车键关闭窗口，安装完成" ∷ "" ∷ "【卸载步骤】" ∷ ""
    ∷ "1. 右键点击 uninstall.bat → 以管理员身份运行" ∷ "" ∷ "2. 等待显示卸载完成" ∷ "" ∷ "【注意事项】" ∷ ""
    ∷ "- 必须以管理员身份运行，否则安装会失败" ∷ "- 同一个安装包可以安装到任意多台设备" ∷ "- 安装后服务开机自启，无需手动操作"
    ∷ "- 覆盖安装会自动停止旧服务、替换文件、重启服务" ∷ "- deploy.conf 文件不要删除，服务运行需要读取该文件"
    ∷ "- deploy.conf 内含注册密钥，请勿外传；管理端更换密钥后需重新生成安装包" ∷ "" ∷ "========================================"
    ∷ [])

unfoldable pub uninstall_bat : String
unfolding lines_text
uninstall_bat = lines_text "\r\n" (
    "@echo off" ∷ "title LAN Agent Uninstall" ∷ "net session >nul 2>&1" ∷ "if %ERRORLEVEL% neq 0 ("
    ∷ "    echo [ERROR] Please run as Administrator!" ∷ "    pause" ∷ "    exit /b 1" ∷ ")"
    ∷ "\"C:\\Program Files\\LanAgent\\LanAgent.exe\" /uninstall" ∷ "echo Uninstall complete"
    ∷ "pause" ∷ [])

-- The archive: the agent's program, and three texts under their names. The second is preceded by a
-- byte order mark, and `encode` writes the others in ASCII.
pub record Package : Type 0 where
  pub agent_exe : List ℕ
  pub deploy_conf_txt : String
  pub readme : String
  pub uninstall : String

unfoldable pub build_package : List ℕ → String → Result Package
unfolding readme_txt uninstall_bat
build_package exe conf =
    if not (is_ascii conf)
    then err unencodable
    else ok (record {
      agent_exe = exe;
      deploy_conf_txt = conf;
      readme = readme_txt;
      uninstall = uninstall_bat;
    })

-- The end of the request: the audit entry, if the archive was built.
unfoldable pub send_package :
    String → ℕ → String → String → Db → Result Package → Result Package × Db
unfolding audit_device
send_package fresh now username server_url db (err e) = (err e, db)
send_package fresh now username server_url db (ok p) = (
  ok p,
  audit_device fresh now "deploy_package" username none (some (concat "server=" server_url)) db,
)

unfoldable pub package_for :
    Config → Option (List ℕ) → String → ℕ → String → Db → Result String → Result Package × Db
unfolding build_package send_package
package_for config exe fresh now username db (err e) = (err e, db)
package_for config none fresh now username db (ok server_url) =
    (err (http 500 "LanAgent.exe not found on server"), db)
package_for config (some exe) fresh now username db (ok server_url) =
    send_package fresh now username server_url db
      (build_package exe (deploy_conf server_url (required_secret config)))

-- `POST /api/deploy/package`; `exe` is the agent's program, if it stands beside the server.
unfoldable pub download_deploy_package :
    Config
    → Option (List ℕ)
    → Option String
    → Option String
    → String
    → ℕ
    → String
    → Db
    → Result Package × Db
unfolding resolve_server_url package_for
download_deploy_package config exe lan_ip header fresh now username db =
    package_for config exe fresh now username db (resolve_server_url lan_ip header)
