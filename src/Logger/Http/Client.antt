-- ===== src/Logger/Http/Client.antt =====
-- logger/http.go: the address of a client.
use go_bank.Common.{Option, none, some, String, if◌then◌else◌, str_eq}
use go_bank.Common.Text.{trim_space}
use go_bank.Common.Text.Search.{before_first, before_last}
use go_bank.Web.{Request, header_get}

abbrev pub or_whole : Option String → String → String
or_whole none whole = whole
or_whole (some cut) whole = cut

unfoldable pub real_ip : Request → String
unfolding header_get before_first before_last trim_space
real_ip r =
    let cf = header_get r.header "CF-Connecting-IP" in
    let real = header_get r.header "X-Real-Ip" in
    let forwarded = header_get r.header "X-Forwarded-For" in
    if str_eq cf ""
    then (if str_eq real ""
        then (if str_eq forwarded ""
            then or_whole (before_last r.remote_addr b':') r.remote_addr
            else trim_space (or_whole (before_first forwarded b',') forwarded))
        else real)
    else cf
