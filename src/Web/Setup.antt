-- ===== src/Web/Setup.antt =====
-- internal/web/setup.go: the certificate of the reverse proxy. What the system answers about the
-- file, the decoding of PEM and base64 are parameters.
pub mod Available
use wallbox_homeautomation_g.Base.{Bool, Option, String, if◌then◌else◌, not, ◌&&◌, ◌==◌}
use wallbox_homeautomation_g.Base.Dict.{or_zero}
use wallbox_homeautomation_g.Go.Strings.{◌+s◌}
use wallbox_homeautomation_g.Web.Pages.{Texts}
use wallbox_homeautomation_g.Web.Reply.{Reply, download, failed, other_error, sent, setup_page}

pub data FileRead : Type 0 where
  found : String → FileRead
  missing unreadable : FileRead

-- `os.Stat` without an error, and `os.ReadFile`
pub record Disk : Type 0 where
  pub exists : String → Bool
  pub read_file : String → FileRead

-- the three results of `readCARoot`
pub data CaRoot : Type 0 where
  certificate : String → CaRoot
  not_found : String → CaRoot
  read_error : CaRoot

unfoldable pub ca_root_available : Disk → String → Bool
ca_root_available disk path = not (path == "") && disk.exists path

abbrev pub of_read : FileRead → CaRoot
of_read (found content) = certificate content
of_read missing = not_found "The configured CA root certificate file was not found on disk."
of_read unreadable = read_error

unfoldable pub read_ca_root : Disk → String → CaRoot
read_ca_root disk path =
    if path == ""
    then not_found
        "No CA root certificate is configured for this deployment (WHA_WEB_CAROOTPATH is unset)."
    else of_read (disk.read_file path)

mobileconfig_head : String
mobileconfig_head =
    "<?xml version=\"1.0\" encoding=\"UTF-8\"?>\n"
    +s "<!DOCTYPE plist PUBLIC \"-//Apple//DTD PLIST 1.0//EN\" \"http://www.apple.com/DTDs/PropertyList-1.0.dtd\">\n"
    +s "<plist version=\"1.0\">\n" +s "<dict>\n" +s "\t<key>PayloadContent</key>\n" +s "\t<array>\n"
    +s "\t\t<dict>\n" +s "\t\t\t<key>PayloadCertificateFileName</key>\n"
    +s "\t\t\t<string>root.crt</string>\n" +s "\t\t\t<key>PayloadContent</key>\n" +s "\t\t\t<data>"

mobileconfig_tail : String
mobileconfig_tail =
    "</data>\n" +s "\t\t\t<key>PayloadDescription</key>\n"
    +s "\t\t\t<string>Adds the wha reverse proxy's internal CA root so this device trusts its HTTPS certificate.</string>\n"
    +s "\t\t\t<key>PayloadDisplayName</key>\n"
    +s "\t\t\t<string>wha secure access root CA</string>\n"
    +s "\t\t\t<key>PayloadIdentifier</key>\n" +s "\t\t\t<string>io.wha.setup.rootca</string>\n"
    +s "\t\t\t<key>PayloadType</key>\n" +s "\t\t\t<string>com.apple.security.root</string>\n"
    +s "\t\t\t<key>PayloadUUID</key>\n"
    +s "\t\t\t<string>b7e2a6b0-2c1a-4b8b-9a3e-6a1f6e0e6b7a</string>\n"
    +s "\t\t\t<key>PayloadVersion</key>\n" +s "\t\t\t<integer>1</integer>\n" +s "\t\t</dict>\n"
    +s "\t</array>\n" +s "\t<key>PayloadDescription</key>\n"
    +s "\t<string>Trusts the internal CA used to serve wha over HTTPS on your home network.</string>\n"
    +s "\t<key>PayloadDisplayName</key>\n" +s "\t<string>wha — Secure Access</string>\n"
    +s "\t<key>PayloadIdentifier</key>\n" +s "\t<string>io.wha.setup</string>\n"
    +s "\t<key>PayloadRemovalDisallowed</key>\n" +s "\t<false/>\n" +s "\t<key>PayloadType</key>\n"
    +s "\t<string>Configuration</string>\n" +s "\t<key>PayloadUUID</key>\n"
    +s "\t<string>4f1b6c3e-9d5a-4e88-8f2e-2e5b6c1a9f3d</string>\n"
    +s "\t<key>PayloadVersion</key>\n" +s "\t<integer>1</integer>\n" +s "</dict>\n" +s "</plist>\n"

unfoldable pub build_mobileconfig : (String → String) → String → String
unfolding mobileconfig_head mobileconfig_tail
build_mobileconfig base64 der = mobileconfig_head +s base64 der +s mobileconfig_tail

module _ {ℓ} {W : Type ℓ} where
  unfoldable pub handle_setup : Texts → String → Disk → String → Reply W
  handle_setup texts lang disk path = setup_page (record {
    title = texts.translate lang "setup.title";
    lang = lang;
    active = "settings";
    has_ca_root = ca_root_available disk path;
  })

  abbrev pub serve_root_cert : CaRoot → Reply W
  serve_root_cert (certificate content) = download "application/x-x509-ca-cert" "root.crt" content
  serve_root_cert (not_found message) = sent 404 message
  serve_root_cert read_error = failed other_error

  unfoldable pub handle_setup_root_cert : Disk → String → Reply W
  handle_setup_root_cert disk path = serve_root_cert (read_ca_root disk path)

  -- `pem` is the first block of a PEM text, if there is one.
  abbrev pub serve_mobileconfig : (String → Option String) → (String → String) → CaRoot → Reply W
  serve_mobileconfig pem base64 (certificate content) =
      download "application/x-apple-aspen-config" "wha-ca.mobileconfig"
        (build_mobileconfig base64 (or_zero content (pem content)))
  serve_mobileconfig pem base64 (not_found message) = sent 404 message
  serve_mobileconfig pem base64 read_error = failed other_error

  unfoldable pub handle_setup_mobileconfig :
      (String → Option String) → (String → String) → Disk → String → Reply W
  handle_setup_mobileconfig pem base64 disk path =
      serve_mobileconfig pem base64 (read_ca_root disk path)
