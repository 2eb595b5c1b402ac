-- ===== src/Server/Response.antt =====
-- include/ant_server/server.hpp: the text of a response, which `handle_http_client` puts together.
use my_async_lib.Base.{Bool, ◌++◌, if◌then◌else◌, length}
use my_async_lib.Base.Text.{codes, format_uint}
use my_async_lib.Http.{Bytes}

abbrev pub body : Bytes
body = codes "Hello, C++20 io_uring Web Server with IOBuf & llhttp!"

abbrev pub server_line : Bytes
server_line = codes "HTTP/1.1 200 OK\r\nServer: MyAwesomeServer/1.0\r\nContent-Length: "

abbrev pub type_line : Bytes
type_line = codes "\r\nContent-Type: text/plain\r\nConnection: "

abbrev pub connection_value : Bool → Bytes
connection_value keep_alive = if keep_alive then codes "keep-alive" else codes "close"

abbrev pub head_end : Bytes
head_end = codes "\r\n\r\n"

-- `header_str`, for a body
unfoldable pub header_str : Bytes → Bool → Bytes
header_str text keep_alive =
    server_line
    ++ (format_uint (length text)
        ++ (type_line ++ (connection_value keep_alive ++ (head_end ++ text))))

-- What `response_buf` holds.
unfoldable pub response_buf : Bool → Bytes
unfolding header_str
response_buf keep_alive = header_str body keep_alive
