-- ===== src/Lib.antt =====
-- netcwmp_xo is a TR-069 device agent: it opens sessions with an auto configuration server (ACS),
-- reports the events of the device in an Inform, answers the calls of the ACS, and runs the
-- downloads, uploads and reboots it was asked for once a session is over. This library models the
-- parts of it that hold the agent's own logic; each function below is written from the C function of
-- the same name, and a file's first comment names the C file it is about.
--
-- Parts, in the order of their use:
--   Base       shared names: native numbers, Boolean tests, lists, integers, return codes.
--   Queue      netcwmp_xo/libcwmp/src/queue.c. Nodes stand on a heap from addresses to nodes, the
--              handle has first, last and size; `none` is a fault of the program, an access through
--              NULL or a freed node. The allocator is a parameter. Queue/Linked says what a
--              well-formed queue is, Queue/Refine compares with a list, Queue/Priority is about
--              queue_add.
--   Event      netcwmp_xo/libcwmp/src/event.c: the list of events that wait for the next Inform, and
--              the record of flags that an event file keeps over a reboot. Event/Slots is about
--              cwmp_event_set_value, Event/Clear about cwmp_event_clear_active, Event/Boot about
--              cwmp_event_init; Event/Flags has the laws of the bit masks.
--   Transfer   cwmp_agent_download_file and cwmp_agent_upload_file of netcwmp_xo/cwmpd/src/agent.c
--              with http_receive_file and http_send_file of netcwmp_xo/libcwmp/src/http.c. What
--              sockets and files answer is an argument, `Exchange`; the URL is parsed by Dest, and
--              `none` is a fault of the program, as for a transfer without a URL.
--   Tasks      cwmp_agent_run_tasks of netcwmp_xo/cwmpd/src/agent.c, over Queue, Event and Transfer.
--   Agent      cwmp_agent_start_session and cwmp_agent_analyse_session of
--              netcwmp_xo/cwmpd/src/agent.c, with the handlers of
--              netcwmp_xo/libcwmp/src/session.c that queue a task. A round of the loop is a function
--              of what the outside does in it, `World`: the connection, the answer of the ACS, the
--              allocator. Agent/Reach has the rounds as a step relation.
--   Chunk      netcwmp_xo/libcwmp/src/buffer.c: the chains of buffers that requests and answers
--              stand in. Chunk/Write is about cwmp_chunk_write_string, Chunk/Copy about
--              cwmp_chunk_copy, Chunk/Bytes about the reads and writes of one buffer.
--   Url        netcwmp_xo/libcwmp/src/url.c: urlencode and urldecode.
--   Param      cwmp_get_parameter_nodename and cwmp_get_parameter_path_node of
--              netcwmp_xo/libcwmp/src/cwmp.c, over a tree of children and siblings.
--   Names      cwmp_session_create_getparameternames_response_message of
--              netcwmp_xo/libcwmp/src/session.c with its parts of netcwmp_xo/libcwmp/src/cwmp.c: the
--              names that the ACS gets; Names/Listed is about the list of all of them.
--   Values     GetParameterValues and SetParameterValues, from their handlers in
--              netcwmp_xo/libcwmp/src/session.c down to cwmp_get_parameter_node of
--              netcwmp_xo/libcwmp/src/cwmp.c. The get and set functions of the nodes and what an array
--              that is never set holds are a parameter, `Device`. Values/Get and Values/Set are about
--              the two calls.
--   Objects    AddObject and DeleteObject in the same way, over the search of Param; the add and del
--              functions are a parameter, `Objects`, and so is the node that `parent` points to, a link
--              that the copies of an object do not keep in step. Objects/Guards says what is called, and
--              Objects/Parent is about a whole DeleteObject.
--   Model      netcwmp_xo/libcwmp/src/model.c: the tree that is built from the elements of the model file,
--              and copies of objects (Model/Copy). Model/Load and Model/Copy/Found compare with the
--              search of Param. What the XML library, the configuration and the C library give is a
--              parameter.
--   Doc        documents: the helpers on nodes, the names of the envelope, and the readers and builders of
--              netcwmp_xo/libcwmp/src/cwmp.c (Doc/Read, Doc/Build), with the functions of
--              netcwmp_xo/libcwmp/src/session.c that make a document out of one (Doc/Answer). A node
--              is what the XML library keeps of it, with the copy that XmlStrduptrim of
--              netcwmp_xo/libcwmp/src/xmlet/xmlparser.h makes of its value; where that reads past its
--              buffer, nothing is known of the node. The numbers of the C library are parameters.
--              Doc/Found, Doc/Rows, Doc/Echo and Doc/Faults read what is built with the readers;
--              Doc/Prefix is about the names of the envelope.
--   Escape     cwmp_xml_copy_to_chunk_with_escape of netcwmp_xo/libcwmp/src/cwmp.c, over Chunk.
--   Header     http_parse_headers, http_set_variable and http_get_variable of
--              netcwmp_xo/libcwmp/src/http.c; the memory pool is a parameter.
--   Dest       http_parse_url of netcwmp_xo/libcwmp/src/http.c: the parts of the URL of the ACS.
--              Dest/Parse is about a URL with a host and a port.
--   Response   http_read_line, http_read_header, http_split_headers and http_read_response up to its body,
--              of netcwmp_xo/libcwmp/src/http.c, over Chunk and Header. Response/Split is about the lines,
--              Response/Read about the whole head.
--   Digest     http_parse_key_value, http_check_digest_auth, http_parse_digest_auth and
--              http_calc_digest_response of netcwmp_xo/libcwmp/src/http.c, with MD5 as a parameter.
--              Digest/Parse is about one key and its value, Digest/Check about whole headers.
--   Receive    cwmp_session_recv_response of netcwmp_xo/libcwmp/src/session.c, over Response and Digest;
--              Receive/Challenge is about the answer of a server that asks for a digest.
--   Request    http_write_request, http_read_request and http_read_body of netcwmp_xo/libcwmp/src/http.c, and
--              cwmp_session_send_request of netcwmp_xo/libcwmp/src/session.c (Request/Send), over Chunk,
--              Response, Digest and Receive. Request/Write and Request/Read are about the text of a
--              request, Request/Body about its body, Request/Send/Challenged about a digest that is asked for.
--   Httpd      the answers of netcwmp_xo/libcwmp/src/httpd.c to connection requests, over Request, Digest and
--              Event; the handlers of `/cwmp` are a parameter. Httpd/Granted is about who is let in.
--   Local      the values that programs of the device ask each other for:
--              netcwmp_xo/libcwmp/src/cwmp_com.c, as JSON that was parsed and before it is printed, and
--              netcwmp_xo/libcwmp/src/cwmp_data.c (Local/Data). The names of the commands and the other
--              programs are parameters. Local/Exchange and Local/Asked are about requests and answers,
--              Local/Data/Near about the object that is asked. Local/Inform is
--              cwmp_session_create_inform_parameters of netcwmp_xo/libcwmp/src/session.c, and Local/Inform/Own
--              is about the values in an Inform.
--   Ring       netcwmp_xo/libcwmp/src/ring_buffer.c; Ring/Length counts the bytes in a ring.
--
-- How the parts interact: the handlers of Agent push tasks to Queue, Tasks pops them after the
-- session and raises events, the next session reports these in an Inform and clears them, which
-- updates the record in the event file that Event/Boot reads after a restart. Texts reach the chunk
-- of a session through Escape. Doc/Answer puts what Names, Values and Objects answer into documents; these
-- find the nodes that the ACS names through Param, in the tree that Model builds.
--
-- Bounds and fuel: the loop over the tasks runs on fuel, and one more than the number of queued tasks
-- is enough; the loops over the bytes of a chunk and over the names of a path run on fuel as well,
-- one for each byte and for each character, and the loop over the lines of a header,
-- one more than there are lines; the loop of a session runs for as many rounds as the
-- outside is given for. Counters of the C code that are bounded by the slots of the event list or by
-- the number of nodes are natural numbers; flags are words below 128, the union of the flags that
-- event.h defines. An `int` that is read from digits is a natural number below
-- 2^31; more digits are a fault of the program. A part of a path has at most 255 characters, and a longer
-- one is a fault.
--
-- Not modelled: sockets, TLS, netlink, threads and logging, which are input and output; the XML
-- parser and printer and other code of third parties; the rest of the HTTP client. The mutexes are not modelled: each locked body is one
-- step.
pub mod Base
pub mod Queue
pub mod Event
pub mod Transfer
pub mod Tasks
pub mod Agent
pub mod Chunk
pub mod Url
pub mod Param
pub mod Escape
pub mod Header
pub mod Names
pub mod Values
pub mod Objects
pub mod Model
pub mod Digest
pub mod Response
pub mod Dest
pub mod Ring
pub mod Receive
pub mod Doc
pub mod Request
pub mod Local
pub mod Httpd
