-- ===== src/Lib.antt =====
-- A model of parts of LibVNCServer, with theorems on them.
--
-- Base holds what the parts share: Boolean tests and list operations over the native numbers, C's
-- `int` as an integer (Base.Int), the bytes of numbers (Base.Bytes), and a `while` loop on fuel with its
-- two rules (Base.Loop).
--
-- Region is libvncserver/rfbregion.c, the algebra of pixel regions on which the server keeps what is
-- to be sent to a client. A region is a list of spans of rows, each with a list of spans of columns.
--   * Region.Span: a span, a position in a list that is being changed (the links of the C list are the
--     spans before it, nearest first, and those after it), `sraSpanListEqual`, `sraSpanListCount`,
--     `sraSpanMergePrevious`, `sraSpanMergeNext`, and the two ways to split a span.
--   * Region.Or, Region.And, Region.Subtract: `sraSpanListOr`, `sraSpanListAnd`, `sraSpanListSubtract`,
--     one function per part of the loop's body. They call themselves on the subspans of two spans; in
--     the model those calls are operations of the level below (`SubOps`), and Region.Nested ties the
--     levels: a NULL list under the columns, lists of columns under the rows. It also says what the
--     pixels of a region are, and when it is well-formed.
--   * Region.Laws: what the level below promises (`SubLaws`), and order and points of span lists.
--     Region.Merge and Region.Split are the lemmas on moving, merging and splitting; the modules below
--     Or, And and Subtract prove the loops. `list_laws` of Region.Levels shows that a list over a level
--     that keeps the promise keeps it too.
--   * Region.Rgn: the exported `sraRgn...` routines. Region.Boolean, Region.Offset, Region.Box,
--     Region.Tight and Region.Pop are the theorems on them. Region.Clip is `sraClipRect` and `sraClipRect2`.
--   * Region.Iterator: `sraRgnGetReverseIterator` and `sraRgnIteratorNext`. What is in front of the
--     iterator takes the place of its stack of pointers. Region.Iterate is on what a loop over
--     it meets, Region.Order on the order of the rectangles.
--   The source changes `dest` in place; the two lists are different objects there, and a subspan is
--   copied when a span is made (`sraSpanCreate`), so that the model passes values. The loops have
--   fuel 2 |src| + |dest| + 1 for Or, and 2 |src| + |dest| + 2 for the two others: a round passes or
--   removes a span, or splits one at a place where it is not split again. The
--   printing is not modelled. Allocation does not fail in this part, and a NULL list only meets
--   a NULL list.
--
-- Stats is libvncserver/stats.c: the lists of counters for each encoding and each message, with the
-- failure of `malloc` as a Boolean, the totals, and the names of types (Stats.Names). The numbers are
-- `uint32_t`, with their wrap-around. `rfbPrintStats`, which writes to the log, is not modelled.
--
-- Updates is how the server keeps track of a client's screen, in libvncserver/main.c and
-- libvncserver/rfbserver.c, over the regions of Region.
--   * Updates.Client: `modifiedRegion`, `copyRegion` with its distance and `requestedRegion` of a
--     client, and what changes them: `rfbScheduleCopyRegion`, `rfbMarkRegionAsModified`,
--     `rfbMarkRectAsModified`, an `rfbFramebufferUpdateRequest`, and the part of
--     `rfbSendFramebufferUpdate` that decides what is sent. The calls for all clients are a `map`.
--   * Updates.Sync: when the client's screen can follow the frame buffer by these regions.
--     Updates.Copy, Updates.Send and Updates.Mark prove it of the operations, and Updates.Run takes
--     them together as the steps of a server with a client.
--   * Updates.Copying: the copies themselves, pixel by pixel or row by row: `rfbDoCopyRegion` in the
--     frame buffer, the messages of `rfbSendCopyRegion`, and the client at such a message, in
--     libvncclient/rfbproto.c and `CopyRectangleFromRectangle` of libvncclient/vncviewer.c.
--     Updates.Copies says when copies one behind the other are the copy of all pixels at once,
--     Updates.Moved and Updates.Delivered prove it of the routines. A message is its fields as 16-bit
--     numbers; the order of their bytes is left out.
--   The frame buffer and the client's screen are functions from pixels to values. The encodings of
--   pixel data are taken to be lossless, the screens not scaled, and in Updates.Run the program to
--   have copied the pixels of which it schedules the copy, all at once and from sources on the screen. The
--   frame buffer of C is one row behind the other: where a rectangle or its source is not on the
--   screen, `rfbDoCopyRegion` moves pixels of other rows, and the model of it says none. The pixels
--   around a cursor that the server draws itself, which `rfbRedrawAfterHideCursor` adds to an update
--   later, the colour map, and the other messages that go with an update are not modelled.
--
-- Auth is how a client is let in: libvncserver/auth.c, and the states of a client in
-- `rfbProcessClientMessage` of libvncserver/rfbserver.c.
--   * Auth.Registry: the list of security handlers, linked through the handlers themselves, with
--     `rfbRegisterSecurityHandler` and `rfbUnregisterSecurityHandler`. Its loops have fuel, as an
--     application can link its handlers in a circle; with the library's handlers only, two rounds are enough.
--   * Auth.Session: a client, and what each message does to it, from the version of the protocol to
--     `rfbProcessClientInitMessage`. Auth.Server: the clients of a server with the list of handlers that
--     they share, as the steps of a system. Server calls (`reverseConnection`) and handlers of applications are in
--     Auth.Session, and not among the steps.
--   * Auth.Guarded is on the list of handlers, Auth.Outside and Auth.Safety on each routine, Auth.Admission on the
--     steps, and Auth.Handshake on one client that is let in or refused.
--   What is read, whether a write succeeds, `rfbRandomBytes`, `sscanf`, `passwordCheck` and the messages
--   after the initialisation are arguments. The field `heard` of a client is not in the code: it
--   holds the messages that were read of it, the last first, so that a theorem can speak of what a client
--   has sent, and no operation looks at it. A message counts as read when `rfbProcessClientMessage` is
--   called at it, except in the state `initialisation_shared`, where none is read. The initialisation of
--   extensions, the log, and a failure of the memory of `rfbClientSendString` are left out.
--
-- Subrects is the RRE and CoRRE encodings, from the server's pixels to the client's: a rectangle as a
-- background and a list of single-coloured subrectangles.
--   * Subrects.Image: an image as a function of column and row (the pixel `y * w + x` of the C
--     buffers), and filling a rectangle pixel by pixel.
--   * Subrects.Encode: `subrectEncode8/16/32` of libvncserver/rre.c, which libvncserver/corre.c repeats,
--     and `getBgColour`. The return of -1, which means that raw pixels are shorter, is `none`. Its
--     loops have as many rounds as there are rows and columns.
--   * Subrects.Send: `rfbSendRectEncodingRRE`, `rfbSendSmallRectEncodingCoRRE` and `rfbSendUpdateBuf` of
--     libvncserver/rfbserver.c on the fields of the client that they use. `rfbWriteExact`,
--     the allocator, `translateFn` and `rfbSendRectEncodingRaw` are the record `Calls`. The loop that
--     copies the encoded bytes has a round for each byte, and one for a buffer that is full at first.
--     Subrects.Tiles is `rfbSendRectEncodingCoRRE`, with fuel above w + h, as each call of itself is on
--     a rectangle that is narrower or lower. What `rfbSendUpdateBuf` does to the client after a write
--     that fails, which is to close it, is not modelled.
--   * Subrects.Wire: the bytes, and the readers `HandleRREBPP` of libvncclient/rre.c and
--     `HandleCoRREBPP` of libvncclient/corre.c with `FillRectangle` and `CheckRect` of
--     libvncclient/vncviewer.c. The server and the client run on a little-endian machine, and
--     the pixels of a rectangle are of 1, 2 or 4 bytes.
--   * Subrects.Find, Loop and Draws are the proof that the subrectangles give back the image;
--     Canvas, Roundtrip and Shown take it to the client; Stream and Outcome are on what is sent;
--     Background is on the choice of the background.
--
-- Hextile is the hextile encoding, in tiles of 16 by 16, with the loops of Subrects.Encode on its pixels.
--   * Hextile.Colours: `testColours` of libvncserver/hextile.c. Hextile.Tile: the bytes that `sendHextiles`
--     puts for a tile, with the colours that it takes the client to have, and the body of the loop of
--     libvncclient/hextile.c with `CopyRectangle` of libvncclient/vncviewer.c.
--   * Hextile.Number and Drawn are on the rectangles of a tile, Places, Bitmap and Read on its bytes,
--     and Hextile.Shown on a tile from the server to the client.
--   * Hextile.Tiles: the loops over the tiles of a rectangle in `sendHextiles` and `HandleHextile`, with
--     their tests, on fuel of a round for each tile and one to see the end. Hextile.Rounds says that they end,
--     and Hextile.Rectangle is on a rectangle from the server to the client.
--   The flushes of the buffer between tiles, the header of the rectangle, and the counters are left out.
--
-- Websocket is the framing under the RFB protocol: the decoder of libvncserver/ws_decode.c as a state
-- machine (Websocket.Context for `ws_ctx_t` and its clean-up, Websocket.Header for `hybiReadHeader`,
-- Websocket.Decode for the rest up to `webSocketsDecodeHybi`), and `webSocketsEncodeHybi` of
-- libvncserver/websockets.c (Websocket.Encode). Websocket.Quiet and Websocket.Bounds are on what the
-- decoder hands to its caller. The read from the socket is a function on a state of
-- the world, and the Base64 routines are functions; both are arguments.
--
-- Args is the command line of libvncserver/cargs.c: `rfbPurgeArguments`, `rfbProcessArguments` and
-- `rfbProcessSizeArguments` (Args.Size), with the C library's conversions, the name lookup and the
-- extensions as a record of functions. Their loops have `argc` rounds, each of which passes an
-- argument or removes one.
--
-- An `int` is an integer without bounds: the code relies on its coordinates, sizes and positions to
-- stay within the range of `int`.
--
-- Not modelled: the other encoders, the rest of the client library, the other messages of the
-- protocol, sockets and HTTP, drawing, file transfer, and the copies of other projects under common.
pub mod Args
pub mod Auth
pub mod Base
pub mod Hextile
pub mod Region
pub mod Stats
pub mod Subrects
pub mod Updates
pub mod Websocket
