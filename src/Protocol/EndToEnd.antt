-- ===== src/Protocol/EndToEnd.antt =====
-- What the desktop's acceptance says of the phone's user.
use ferusa.Phone.Consent.Desk.{Desk}
