-- ===== src/Lib.antt =====
-- Termos (sshos): a desktop in text mode that survives a disconnection. A daemon keeps the session:
-- windows, each with an application, drawn into cells. A client on a terminal sends the input of
-- the user and shows what the daemon sends back, both as framed messages over a socket.
--
-- The parts that are modelled, each with the file of the repository that it follows:
--   * Common/Utf8 is src/common/utf8.cpp: `utf8_decode`, `encode_utf8` and `fold_to_ascii`. A string
--     is a list of bytes, a byte a number under 256.
--   * Common/Proto is src/common/proto.cpp: the messages, `encode`, and the class `Decoder` that
--     takes the bytes as the socket gives them. Proto/Reader is its bounds-checked reader, and
--     Proto/Decoder the state with `feed` and `next`; `receive` is the loop of src/client/client.cpp
--     around them.
--   * Common/OutQueue is src/common/outqueue.cpp: the bytes that the daemon has not sent yet. What
--     `send` returns is an input, a list of results, and what its documentation promises of them is
--     a hypothesis (`Obeys`). Common/Wire joins the queue to the decoder at the other end.
--   * Vt/Parser is src/vt/parser.cpp, the state machine that a guest's output goes through.
--   * Vt/Screen is src/vt/screen.cpp, the grid and its cursor, with Vt/Cell for a cell: Screen/Scroll
--     has the slices that scroll, Screen/Cursor the moves, Screen/Edit `print` and what erases and
--     shifts, Screen/Pages the new size, the alternate screen and the text of a line. The other
--     files under Vt/Screen are proofs. A call of any operation is an `Op` of Screen/Run.
--   * Vt/Scrollback, Vt/Attrs, Vt/Charset, Vt/Modes and Vt/Reply are the files of the same names under
--     src/vt: the history, SGR, the DEC graphics, the modes, and the answers to a guest.
--   * Apps/Terminal is src/apps/terminal.cpp, of it the tab that a guest writes to: `receive` is the
--     parser with the terminal as its sink.
--   * Render/Cell is src/render/cell.hpp, Render/Width the widths of src/render/width.cpp, and
--     Render/Surface is src/render/surface.cpp, with the cell that src/render/cell.hpp has for it: a view
--     is its rectangle, and a call of any of its operations a `Stroke` of Surface/View.
--   * Wm is src/wm/window.cpp; Wm/Manager, Wm/Decor, Wm/Tile and Wm/Layout are the files of the same
--     names under src/wm, Wm/Decor with src/wm/hittest.cpp.
--   * Daemon/Config is src/daemon/config.cpp, the text of the settings.
--   * Shell/UpdateState is src/shell/update_state.cpp, which reads what a script says of an update.
--   * Apps/Editor is src/apps/editor/buffer.cpp, the lines of the editor.
--
-- How they meet: the decoder hands out what `encode` made of the messages that went through the
-- output queue of the other side; the parser calls its sink, here a list of events, and the terminal
-- does with each what belongs to it: it edits the screen, sets a mode, sets the pen by SGR, or
-- answers; the rows that leave the top of the screen go to the history, which the screen holds as a
-- value, since no other screen has it; the layout and the hit test read the manager's windows.
--
-- State is a record, an operation a function from the state to the state and what it returns. Calls
-- on an object outside (the sink of the parser, a socket) are values in the result. Machine integers
-- that can wrap keep the remainder (`size_t` in `OutQueue.push`, the identifiers of windows, the
-- sizes in the protocol). The `int`s of the geometry are integers without a bound: the program's
-- coordinates are those of a terminal, and their overflow is not modelled.
--
-- A cell of the screen is addressed by natural numbers: the cursor and the region are on the grid in
-- every state that the operations reach, and what they take from a guest is an integer that they
-- bound themselves.
--
-- Fuel: `next`'s loop has one more than the length of the buffer, and a turn that goes on consumes a
-- header; draining has one more than the buffer's length, and each message is longer than that;
-- `fold_to_ascii` has one more than the length of the text, and decoding advances; the loop of
-- `columns_for` has the number of windows, whose square is not under it; the digits of a number are
-- not more than its value, but for 0; the loop of SGR has the number of parameters, and each turn
-- reads one at least; the loop of `View::text` has the length of the text. That each of them is
-- enough is proved where the loop is used.
--
-- Parameters: how a `std::string` manages its capacity (`Allocator`, `Capacity`), since the program
-- reads it to decide when to give memory back; and whether the characters of ambiguous width are wide,
-- which the program asks the terminal once and keeps in a global.
--
-- Not modelled: what the windows and the panels draw, how a frame is sent, the session of the
-- daemon, the input of the user, the other applications, of the terminal its tabs among each other,
-- its keys and its mouse, and everything that is a system call (sockets, pseudo-terminals, processes, files).
pub mod Apps
pub mod Base
pub mod Common
pub mod Daemon
pub mod Render
pub mod Shell
pub mod Tests
pub mod Vt
pub mod Wm
