-- ===== src/Lib.antt =====
-- A model of the CherryRecorder server: the chat of src/*.cpp and include/*.hpp, and the
-- scripts of its published documentation in docs/docs_output/html: the search panel (search/search.js),
-- the navigation tree (navtree.js), the settings (cookie.js), the folding (dynsections.js), the side
-- panel (resize.js) and the button that copies code (clipboard.js).
--
-- The parts. A client is a session, over WebSocket (src/WebSocketSession.cpp) or TCP
-- (src/ChatSession.cpp). It parses what it reads into commands and calls the server
-- (src/ChatServer.cpp), which keeps the set of the sessions, the registry of nicknames and the rooms
-- (src/ChatRoom.cpp), writes each message to the history (src/MessageHistory.cpp), and answers by
-- `deliver`, which queues messages in the session. Apart from them, an HTTP server
-- (src/HttpServer.cpp) routes requests for places to src/handlers/PlacesApiHandler.cpp, which asks
-- Google.
--   Prelude              names from the libraries, tests on numbers, lists on native numbers
--   Text                 what is used of std::string and std::istringstream
--   StringMap, IdSet     std::map and std::set: `m[k] = v`, `find`, `erase`, `insert`; the lemmas on
--                        their order are in StringMap/Order and StringMap/Sorted
--   Session              include/SessionInterface.hpp: the objects as a heap indexed by pointer
--   ChatRoom             src/ChatRoom.cpp: join, leave, broadcast, is_full; ChatRoom/Membership has
--                        what they do to the participants and current rooms
--   History              src/MessageHistory.cpp: a text for each file name, the log and load calls
--     Lines, Files, Replay  the line loop, the file names, and logging followed by loading
--   ChatServer           the server's state and its broadcasts
--     Archive            the history as the server passes it on
--     Rooms              join_room, leave_room, their asynchronous forms, leave_all_rooms_impl
--       Membership, Departure, Consistency, Capacity, Flaws  who is in which room, how many
--     Nicknames          try_register_nickname_async and _impl, unregister_nickname, the look-ups
--       Registry, Faults, Listing  who holds which name, and an iterator past the end
--       Keeping, Leavers   who is registered, kept by renamings, comings and goings
--     Sessions           join, leave, send_private_message, stop
--       Broadcasts, Leaving, Twice  who receives what, and what is left of a session
--     Frames, Frames/Messages  what each operation leaves alone
--     Soundness          the invariant of the server, operation by operation
--   WebSocketSession     process_message with the handlers of the answers
--     WriteQueue, WriteOrder  deliver, do_write, on_write, and the order of the messages
--     Handlers, Nicknames, Capacity, Soundness  what the commands keep
--   ChatSession          start, process_command, on_read, stop_session, and shared_from_this of
--                        include/ChatSession.hpp, which calls itself
--     WriteQueue, Lines  the queue of this class, the cutting into lines
--     Recursion          what becomes of all of them
--   Runs                 the events of the server and its sessions in any order; late_message and
--                        disconnect_again are those of a session that has left, IsOrderly the runs
--                        without them
--     Invariant, Results what holds after any run of them
--   HttpSession          HttpSession of src/HttpServer.cpp: on_read, its routes and responses, on_write
--     Routes, Answers, KeepAlive  which request goes where, and one after the other
--   Listener             the listeners of src/HttpServer.cpp, src/ChatListener.cpp and
--                        src/WebSocketListener.cpp; Listener/Serving has sequences of
--                        accepts, Listener/Accepting what a fresh listener makes of them
--   Main                 the settings of src/main.cpp; Main/Ports has the ports
--   Integer              integers, for JSON and for positions
--   Json                 the values and accessors of Boost.JSON; Json/Objects has their laws
--   Google               the connections of src/handlers/PlacesApiHandler.cpp, and the attempts to connect
--     Attempts, Exchange how the attempts end, and what an exchange went through
--   PlacesApi            its searches and details, requestGooglePlacesApi, createErrorResponse
--     Requests           what the searches send
--     Transform          what they make of the places in an answer
--     Photo              handlePlacePhoto with its redirection
--     Shape, Answers, Statuses, Bias, Redirect, Cors  the answers, their statuses, and what is sent
--   DocSearch            the search panel
--     Cookie             cookie.js
--     Ids, Rows, Matches, Keys  SearchResults: convertToId, Search, NavNext, NavPrev, Nav, NavChild
--     Dom, Walk          createResults, and the walk of FindChildElement
--     Sections           dynsections.js: the folding of sections, directories and code
--     CodeFold           its codefold.init; CodeFold/Global has the control for all folds
--     Windows, Windows/Fit  the places of the windows
--     Panel, Box, Select, Tidy  SearchBox: its state, its actions and handlers, init_search
--   NavTree              navtree.js: the data and the nodes
--     Links              stripPath, stripPath2, hashValue, pathName
--     Tree               newNode, getNode, expandNode, showNode
--     Page               selectAndHighlight, gotoNode, navTo, the handler of hashchange
--     Sync               the button of synchronization with its setting
--     Anchors, Anchors/Bounds  gotoAnchor with its animations, highlightAnchor
--     Scripts, Siblings  getData and getScript, removeToInsertLater
--     Settled, Clicks    the flags of the nodes (Showing, Pages) under the events of the page
--     Opening            the way that showNode opens: Selection, and First for a new page
--     Search, Agreement  the index, and the button
--   Resize               resize.js; Resize/Width has what becomes of the panel's width, Resize/Events
--                        the events of a page
--   Clipboard            clipboard.js; Clipboard/Copies has what is copied
--   Examples             concrete states and runs
--
-- The shape of the model. A pointer to a session is a number; a `weak_ptr` can be locked while the
-- session is `alive`. The server's state is a record, and each operation is a function on it. The
-- server runs its operations one after the other on a strand; an asynchronous operation is the
-- function that runs its strand body, and a command is run to the end of its handler with nothing in
-- between. `delivered` lists the messages handed to a session; the two write queues, which are
-- relations between states, stand for what the session then does with them. A registration that
-- dereferences the end of a map, which C++ leaves undefined, has the result `undefined`. A handler of
-- the panel that throws has the result `none`. Texts are sequences of characters; the limits on
-- lengths count the bytes of UTF-8, as `length()` does. Logging to spdlog is left out.
--
-- Arguments stand for what is not in the repository: the clock and the file system (`Env` of
-- History), the browser (`Platform` of DocSearch/Cookie), `toLowerCase` and the generated search data
-- (`Site` of DocSearch/Panel), and the location and generated scripts of a page (`Site` of NavTree). A
-- script of the navigation tree runs before anything else happens, or never loads.
--
-- The handler of places takes Boost.JSON with the arithmetic of doubles (`Library` of Json), Beast's
-- check of a response and the network (`Config` of PlacesApi, `Host` of Google) as arguments; an
-- exception is the result `throws`. HttpSession takes the four handlers as arguments, and
-- PlacesApi/Cors puts the two together.
--
-- Fuel: the attempts to connect run on three rounds, the limit in the code. shared_from_this of
-- ChatSession runs on the frames that the stack has room for, whatever their number. The walk of
-- FindChildElement runs on the number of the elements below the parent and one more, since each
-- round passes an element or the end of a level. The digits of a number n are made in n + 1
-- rounds at most, since each takes one off.
--
-- Not modelled: the threads and signals of main, the sockets and their shutdown, the placeholders
-- of ChatServer for accounts and files, the scrolling of the navigation tree to its selected
-- item, the listeners of touch events, jQuery, and the generated data.
pub mod Prelude
pub mod StringMap
pub mod IdSet
pub mod Text
pub mod History
pub mod Runs
pub mod HttpSession
pub mod Session
pub mod ChatRoom
pub mod ChatServer
pub mod WebSocketSession
pub mod ChatSession
pub mod DocSearch
pub mod NavTree
pub mod Resize
pub mod Examples
pub mod Integer
pub mod Json
pub mod Google
pub mod PlacesApi
pub mod Clipboard
pub mod Listener
pub mod Main
