-- ===== src/Service/Errors.antt =====
-- manager/service/errors.go, and `humanizeLocalAPIError` of manager/service/settings.go. A service
-- error is its kind around its message, or around the message and the cause.
use vpn_pack.Common.{
  String, Bool, true, false, ◌&&◌, ◌||◌, some, none, Error, text, wrap, if◌then◌else◌,
}
use vpn_pack.Service.ExitNode.Rules.{behind}

unfoldable pub validation_error : String → Error
validation_error msg = wrap "validation" (text msg)

unfoldable pub not_found_error : String → Error
not_found_error msg = wrap "not found" (text msg)

unfoldable pub precondition_error : String → Error
precondition_error msg = wrap "precondition" (text msg)

unfoldable pub conflict_error : String → Error
conflict_error msg = wrap "conflict" (text msg)

unfoldable pub upstream_error : String → Error → Error
upstream_error msg cause = wrap "upstream" (wrap msg cause)

unfoldable pub internal_error : String → Error → Error
internal_error msg cause = wrap "internal" (wrap msg cause)

-- `strings.Contains`
unfoldable pub contains_text : String → String → Bool
unfolding behind
contains_text s part = elim (behind part s) [ some _ ↦ true | none ↦ false ]

-- The first argument is `strings.ToLower` of the error's text.
unfoldable pub humanize_local_api_error : String → String
unfolding contains_text
humanize_local_api_error lower =
    if contains_text lower "not logged in"
    then "Tailscale is not connected. Use the Status tab to log in first."
    else if contains_text lower "not running"
    then "Tailscale service is stopped. Start it from the Status tab."
    else if contains_text lower "backend state: needslogin"
    then "Authentication required. Complete login in the Status tab."
    else if contains_text lower "already running"
    then "Tailscale is already connected."
    else if contains_text lower "timeout" || contains_text lower "deadline exceeded"
    then "Tailscale service is not responding. Check if tailscaled is running: systemctl status tailscaled"
    else if contains_text lower "connection refused"
    then "Cannot reach tailscaled. Verify the service is running: systemctl status tailscaled"
    else if contains_text lower "auth key" && contains_text lower "expired"
    then "The auth key has expired. Generate a new one in the Tailscale admin console."
    else if contains_text lower "auth key" && contains_text lower "invalid"
    then "The auth key is not recognized. Verify it was copied correctly from the Tailscale admin console."
    else if contains_text lower "node already registered"
    then "This device is already registered to a tailnet. Log out first if you want to re-register."
    else "Tailscale error: "
